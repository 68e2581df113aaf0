-- ===== src/Client/Start/Session.antt =====
-- What is typed to a client, sent by it, passed on by the server, and printed by the other clients.
use ntu_computer_network.Base.{
  suc, replicate, ℕ, suc, ◌+◌, ◌^◌, ◌≤◌, ◌<◌, ◌≡◌, ap, ◌∙◌, ◌≢◌, true, none, some, List, [], ◌∷◌,
  ◌++◌, arith, lt→ltb, Bytes, codes, length, All, All-append, length-append, ok, ◌>>=◌, decimal,
}
use ntu_computer_network.Tokens.Words.{IsWord, IsWord-All, IsPlain-nonzero}
use ntu_computer_network.Chat.{
  ChatServer, find_name, rename_prefix, strip_prefix, send_all, broadcast_text, handle_message,
}
use ntu_computer_network.Chat.Config.{atoi-decimal}
use ntu_computer_network.Chat.Members.{has_socket, IsValid}
use ntu_computer_network.Chat.Members.{IsSized}
use ntu_computer_network.Chat.Meaning.{told, send_all-map}
use ntu_computer_network.Chat.Messages.{received_text, handle_message-broadcast}
use ntu_computer_network.Client.{talk, receive_message}
use ntu_computer_network.Client.Lines.{talk-line, talk_at_end}
use ntu_computer_network.Client.Talks.{run_client-name}
use ntu_computer_network.Client.Start.{Network, connected, main, receive_all}

-- Lines as they are typed.
abbrev pub typed : List Bytes → Bytes
typed [] = []
typed (line ∷ lines) = line ++ b'\n' ∷ typed lines

-- A line that a round of the client sends whole.
abbrev pub IsLine : Bytes → Type 0
IsLine line = IsWord (codes "\n") line × (length line ≤ 1022)

-- Lines, and the last one of them, or else the message before them, so many times again.
abbrev pub again : ℕ → Bytes → List Bytes → List Bytes
again n message [] = replicate n message
again n message (line ∷ lines) = line ∷ again n line lines

talk-again :
    (n : ℕ) (message : Bytes) (lines : List Bytes)
    → IsWord (codes "\n") message
    → All IsLine lines
    → talk (length lines + n) message (typed lines) ≡ ok (again n message lines)
talk-again n message [] w a = ap (λ k. talk k message []) (omega arith) ∙ talk_at_end n message w
talk-again n message (line ∷ lines) w a =
    ap (λ k. talk k message (typed (line ∷ lines))) (omega arith)
    ∙ talk-line (length lines + n) message line (typed lines) a.0.0 a.0.1
    ∙ rw (talk-again n line lines a.0.0 a.1, ◌>>=◌)

-- Started with an address and a port in decimal digits at which it connects, with a name of 1 to 48
-- bytes and one line or more of 1 to 1022 bytes typed to it, none of them with a NUL: in as many rounds
-- of its loop as there are lines, and `n` more behind the end of the input, the client sends the name
-- behind "/rename ", every line in order and without its end, and then the last line `n` times again.
-- What the two arrays have held does not matter.
pub main-typed :
    (network : Network) (program ip : Bytes) (more : List Bytes) (port socket_fd n : ℕ)
    (username message name line : Bytes) (lines : List Bytes)
    → port < 2 ^ 16
    → network.new_socket ≡ some socket_fd
    → network.connects socket_fd ip port ≡ true
    → IsWord (codes "\n") name
    → length name ≤ 48
    → All IsLine (line ∷ lines)
    → main network
        (program ∷ ip ∷ decimal port ∷ more)
        (suc (length lines + n))
        username
        message
        (name ++ b'\n' ∷ typed (line ∷ lines))
      ≡ ok (connected socket_fd, (rename_prefix ++ name) ∷ line ∷ again n line lines)
unfolding main
main-typed network program ip more port socket_fd n username message name line lines small opened
      reached w short a =
    rw (atoi-decimal port small, ◌>>=◌)
      (rw (opened, reached)
        (rw (
          run_client-name (suc (length lines + n)) username message name (typed (line ∷ lines)) w
              short,
          talk-line (length lines + n) message line (typed lines) a.0.0 a.0.1,
          talk-again n line lines a.0.0 a.1,
          ◌>>=◌,
        )))

-- What a client receives in one piece is printed as a line, and the loop goes on.
receive_all-text :
    (text : Bytes) (more : List Bytes)
    → All (λ c. c ≢ 0) text
    → length text < 1024
    → receive_all (text ∷ more) ≡ (receive_all more >>= λ lines. ok ((text ++ b'\n' ∷ []) ∷ lines))
unfolding receive_all receive_message
receive_all-text text more plain short =
    rw (lt→ltb (length text) 1024 short, received_text text plain, ◌>>=◌)

-- A line of 1 to 1022 bytes that is typed to a client is sent as it is. A valid server that serves the
-- client, whose sizes do not wrap and whose receive buffer is as long as the line, and that gets the
-- line in one piece, sends it to every client once, behind the client's name and ": ". A client that
-- receives this in one piece prints it as a line and goes on. The line does not start with "/rename ",
-- name and line hold no NUL, and what is sent on has less than 1024 bytes.
pub typed_line_shown :
    {server : ChatServer} (socket rounds : ℕ) (old name line rest : Bytes) (more : List Bytes)
    → IsValid server
    → has_socket socket server.clients ≡ true
    → find_name socket server.clients ≡ some name
    → All (λ c. c ≢ 0) name
    → IsLine line
    → strip_prefix rename_prefix line ≡ none
    → IsSized server.config
    → length line ≤ server.config.message_buffer_size
    → length name + 2 + length line < 1024
    → (talk (suc rounds) old (line ++ b'\n' ∷ rest)
        ≡ (talk rounds line rest >>= λ texts. ok (line ∷ texts)))
      × (handle_message server socket line
          ≡ ok (server, told (name ++ (codes ": " ++ line)) server.clients))
      × (receive_all ((name ++ (codes ": " ++ line)) ∷ more) ≡ (
          receive_all more >>= λ lines.
          ok (((name ++ (codes ": " ++ line)) ++ b'\n' ∷ []) ∷ lines)))
typed_line_shown {server} socket rounds old name line rest more v member found named (w, short)
      other sized room fits =
    let plain = IsPlain-nonzero (codes "\n") line (IsWord-All (codes "\n") line w) in
    let (sender, here, run) =
      handle_message-broadcast socket line v member plain other sized (omega arith) in
    let same : sender ≡ name = cc in
    (
      talk-line rounds old line rest w short,
      run
          ∙ ap (λ n. ok (server, send_all (broadcast_text n line) server.clients)) same
          ∙ ap (λ calls. ok (server, calls))
              (send_all-map (broadcast_text name line) server.clients),
      receive_all-text (broadcast_text name line) more
          (All-append (λ c. c ≢ 0) name (codes ": " ++ line) named
            (All-append (λ c. c ≢ 0) (codes ": ") line (omega arith) plain))
          (omega (arith, length-append name (codes ": " ++ line))),
    )
