-- ===== src/Client.antt =====
-- chat-client/src/chat-client.c: the chat client, from the lines that are typed to the texts that are
-- sent, and from the bytes that are received to the text that is printed.
pub mod Lines
pub mod Talks
pub mod Start
use ntu_computer_network.Base.{
  ℕ, zero, suc, true, false, ◌+◌, List, [], ◌∷◌, ◌++◌, ltb, ◌==◌, if◌then◌else◌, Bytes, codes,
  length, out_of_bounds, Exec, ok, fault, ◌>>=◌,
}
use ntu_computer_network.Tokens.{string_at}
use ntu_computer_network.Chat.{cut_name, print}

abbrev pub max_message_size : ℕ
max_message_size = 1024

abbrev pub max_name_length : ℕ
max_name_length = 50

abbrev read_first : ℕ → Bytes × Bytes → Bytes × Bytes
read_first c (line, rest) = (c ∷ line, rest)

-- At most so many bytes of the input, up to its first line end and with it; then the rest.
unfoldable pub take_line : ℕ → Bytes → Bytes × Bytes
take_line zero input = ([], input)
take_line (suc n) [] = ([], [])
take_line (suc n) (c ∷ cs) = elim (c == b'\n') [
  | true ↦ (c ∷ [], cs)
  | false ↦ read_first c (take_line n cs)
]

-- `fgets(line, size, stdin)`: one byte is for the NUL. At the end of the input it returns NULL and
-- leaves the array as it was.
unfoldable pub fgets : ℕ → Bytes → Bytes → Bytes × Bytes
unfolding take_line
fgets (suc n) line [] = (line, [])
fgets (suc n) line (c ∷ cs) = take_line n (c ∷ cs)
fgets zero line input = (line, input)

-- `strtok(line, "\n")`, and the string that is then at `line`
abbrev pub chomp : Bytes → Exec Bytes
chomp line = cut_name line

-- The text that `rename_user` sends.
unfoldable pub rename_user : Bytes → Exec Bytes
rename_user username =
    print (max_message_size + max_name_length + 3) (codes "/rename" ++ (codes " " ++ username))

-- So many rounds of the loop of `main`, with `message` and what is left of the input: the texts sent.
unfoldable pub talk : ℕ → Bytes → Bytes → Exec (List Bytes)
unfolding fgets
talk zero message input = ok []
talk (suc rounds) message input = do
  text ← chomp (fgets max_message_size message input).0
  texts ← talk rounds text (fgets max_message_size message input).1
  ok (text ∷ texts)

-- `main` from the name on, which is typed before any message; `username` and `message` are what the
-- two arrays hold before anything is read.
unfoldable pub run_client : ℕ → Bytes → Bytes → Bytes → Exec (List Bytes)
unfolding fgets rename_user talk
run_client rounds username message input = do
  name ← chomp (fgets max_name_length username input).0
  renames ← rename_user name
  texts ← talk rounds message (fgets max_name_length username input).1
  ok (renames ∷ texts)

-- A round of `receive_message` when `recv` gives `received`: the NUL is written behind it, into an
-- array of `max_message_size` bytes.
unfoldable pub receive_message : Bytes → Exec Bytes
receive_message received =
    if ltb (length received) max_message_size
    then string_at (received ++ 0 ∷ []) 0
    else fault out_of_bounds
