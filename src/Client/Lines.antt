-- ===== src/Client/Lines.antt =====
-- What `fgets` and `strtok` make of a line that is typed, and of the end of the input.
use ntu_computer_network.Base.{
  ℕ, zero, suc, ◌+◌, ◌≤◌, ◌<◌, ◌≡◌, refl, ap, ◌∙◌, ◌≢◌, false, [], ◌∷◌, ◌++◌, arith, ◌==◌, Bytes,
  codes, length, replicate, All, All-append, ok, ◌>>=◌, contains,
}
use ntu_computer_network.Tokens.Laws.{IsPlain}
use ntu_computer_network.Tokens.Words.{IsWord, IsWord-All, IsPlain-nonzero}
use ntu_computer_network.Chat.Names.{name_of, up_to_end, cut_name-name_of}
use ntu_computer_network.Client.{take_line, fgets, chomp, talk, max_message_size}

-- A line that fits is read whole, with its end.
take_line-line :
    (n : ℕ) (line rest : Bytes)
    → All (IsPlain (codes "\n")) line
    → length line < n
    → take_line n (line ++ b'\n' ∷ rest) ≡ (line ++ b'\n' ∷ [], rest)
unfolding take_line contains
take_line-line zero line rest a h = elim h [ ]
take_line-line (suc n) [] rest a h = refl
take_line-line (suc n) (c ∷ line) rest a h =
    let other : (c == b'\n') ≡ false = ground (arith, a.0.1) in
    rw (other, take_line, take_line-line n line rest a.1 (omega arith))

pub fgets-line :
    (n : ℕ) (old line rest : Bytes)
    → All (IsPlain (codes "\n")) line
    → length line + 1 < n
    → fgets n old (line ++ b'\n' ∷ rest) ≡ (line ++ b'\n' ∷ [], rest)
unfolding fgets
fgets-line zero old line rest a h = elim h [ ]
fgets-line (suc n) old [] rest a h = take_line-line n [] rest a (omega arith)
fgets-line (suc n) old (c ∷ line) rest a h = take_line-line n (c ∷ line) rest a (omega arith)

up_to_end-line :
    (line more : Bytes) → All (IsPlain (codes "\n")) line → up_to_end (line ++ b'\n' ∷ more) ≡ line
unfolding up_to_end contains
up_to_end-line [] more a = refl
up_to_end-line (c ∷ line) more a =
    let other : (c == b'\n') ≡ false = ground (arith, a.0.1) in
    rw (other, up_to_end-line line more a.1)

name_of-line :
    (line more : Bytes) → IsWord (codes "\n") line → name_of (line ++ b'\n' ∷ more) ≡ line
unfolding name_of contains
name_of-line [] more w = absurd w
name_of-line (c ∷ line) more w =
    let other : (c == b'\n') ≡ false = ground (arith, w.0.1) in
    rw (other, up_to_end-line line more w.1)

up_to_end-whole : (line : Bytes) → All (IsPlain (codes "\n")) line → up_to_end line ≡ line
unfolding up_to_end contains
up_to_end-whole [] a = refl
up_to_end-whole (c ∷ line) a =
    let other : (c == b'\n') ≡ false = ground (arith, a.0.1) in rw (other, up_to_end-whole line a.1)

pub name_of-word : (line : Bytes) → IsWord (codes "\n") line → name_of line ≡ line
unfolding name_of contains
name_of-word [] w = absurd w
name_of-word (c ∷ line) w =
    let other : (c == b'\n') ≡ false = ground (arith, w.0.1) in rw (other, up_to_end-whole line w.1)

-- A line that is typed leaves its text, without the line end.
pub chomp-line : (line : Bytes) → IsWord (codes "\n") line → chomp (line ++ b'\n' ∷ []) ≡ ok line
chomp-line line w =
    cut_name-name_of (line ++ b'\n' ∷ []) (
      All-append (λ c. c ≢ 0) line (b'\n' ∷ [])
        (IsPlain-nonzero (codes "\n") line (IsWord-All (codes "\n") line w))
        ((λ e. omega arith), tt))
    ∙ ap ok (name_of-line line [] w)

-- A text without a line end stays as it is.
pub chomp-word : (line : Bytes) → IsWord (codes "\n") line → chomp line ≡ ok line
chomp-word line w =
    cut_name-name_of line (IsPlain-nonzero (codes "\n") line (IsWord-All (codes "\n") line w))
    ∙ ap ok (name_of-word line w)

-- At the end of the input the client does not stop: it sends the last message again in every round.
pub talk_at_end :
    (rounds : ℕ) (message : Bytes)
    → IsWord (codes "\n") message
    → talk rounds message [] ≡ ok (replicate rounds message)
unfolding talk fgets
talk_at_end zero message w = refl
talk_at_end (suc rounds) message w =
    rw (chomp-word message w, ◌>>=◌) (rw (talk_at_end rounds message w, ◌>>=◌))

-- A message that is typed is sent, and then the client goes on with the rest of the input.
pub talk-line :
    (rounds : ℕ) (old line rest : Bytes)
    → IsWord (codes "\n") line
    → length line ≤ 1022
    → talk (suc rounds) old (line ++ b'\n' ∷ rest)
      ≡ (talk rounds line rest >>= λ texts. ok (line ∷ texts))
unfolding talk
talk-line rounds old line rest w h = rw (
  fgets-line max_message_size old line rest (IsWord-All (codes "\n") line w) (omega arith),
  chomp-line line w,
  ◌>>=◌,
)
