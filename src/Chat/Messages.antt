-- ===== src/Chat/Messages.antt =====
-- What a message to the chat does: a change of name, or a broadcast.
use ntu_computer_network.Base.{
  add_size, ℕ, ◌≤◌, ◌<◌, ◌≡◌, refl, ap, ◌∙◌, ◌≢◌, inl, inr, true, ◌||◌, none, some, List, [], ◌∷◌,
  ◌++◌, arith, ◌==◌, if◌then◌else◌, lt→ltb, eq→==, ==_iff, Bool-cases, Bytes, codes, length, All,
  length-append, ok, ◌>>=◌,
}
use ntu_computer_network.Tokens.{string_at}
use ntu_computer_network.Tokens.Laws.{cstring-nul}
use ntu_computer_network.Chat.{
  ChatServerConfig, broadcast_size, stored_text, ChatClient, ChatServer, Send, find_name, set_name,
  rename_prefix, strip_prefix, send_all, broadcast_text, broadcast, handle_message,
}
use ntu_computer_network.Chat.Members.{IsSized, has_socket, IsDistinct, Fits, IsValid}

pub find_name-Fits :
    (limit s : ℕ) (cs : List ChatClient)
    → All (Fits limit) cs
    → has_socket s cs ≡ true
    → (name : Bytes) × (find_name s cs ≡ some name) × (length name ≤ limit)
unfolding find_name
find_name-Fits limit s [] a h = absurd (cc)
find_name-Fits limit s (c ∷ cs) a h = elim (Bool-cases (c.socket == s)) [
  | inl e ↦ (c.name, rw e, a.0)
  | inr e ↦
      let (name, found, fits) = find_name-Fits limit s cs a.1 (rw e at h) in
      (name, rw e found, fits)
]

-- Renaming a client touches its name only.
pub set_name-keeps :
    (limit s : ℕ) (name : Bytes) (cs : List ChatClient)
    → length name ≤ limit
    → IsDistinct cs
    → All (Fits limit) cs
    → IsDistinct (set_name s name cs)
      × All (Fits limit) (set_name s name cs)
      × ((t : ℕ) → has_socket t (set_name s name cs) ≡ has_socket t cs)
unfolding set_name
set_name-keeps limit s name [] h v a = (tt, tt, λ t. refl)
set_name-keeps limit s name (c ∷ cs) h v a = elim (Bool-cases (c.socket == s)) [
  | inl e ↦ rw e (v, (h, a.1), λ t. refl)
  | inr e ↦
      let (d, f, same) = set_name-keeps limit s name cs h v.1 a.1 in
      rw e ((same c.socket ∙ v.0, d), (a.0, f), λ t. ap (λ b. c.socket == t || b) (same t))
]

pub find_name-set_name :
    (s : ℕ) (name : Bytes) (cs : List ChatClient)
    → has_socket s cs ≡ true
    → (t : ℕ) → find_name t (set_name s name cs) ≡ (if s == t then some name else find_name t cs)
unfolding find_name set_name
find_name-set_name s name [] h t = absurd (cc)
find_name-set_name s name (c ∷ cs) h t = elim (Bool-cases (c.socket == s)) [
  | inl e ↦ rw (e, (==_iff c.socket s).0 e) (ground arith)
  | inr e ↦ rw e (ground (arith, find_name-set_name s name cs (rw e at h) t))
]

pub strip_prefix-append : (ps text : Bytes) → strip_prefix ps (ps ++ text) ≡ some text
unfolding strip_prefix
strip_prefix-append [] text = refl
strip_prefix-append (p ∷ ps) text = rw (eq→== p p refl) (strip_prefix-append ps text)

pub received_text : (text : Bytes) → All (λ c. c ≢ 0) text → string_at (text ++ 0 ∷ []) 0 ≡ ok text
received_text text a = cstring-nul text [] a

abbrev pub reply : ℕ → Bytes → List Send
reply socket text = record { socket = socket; text = text } ∷ []

pub stored_text-received :
    (config : ChatServerConfig) (received : Bytes)
    → IsSized config
    → length received ≤ config.message_buffer_size
    → stored_text config received ≡ string_at (received ++ 0 ∷ []) 0
unfolding stored_text
stored_text-received config received sized h =
    rw (lt→ltb (length received) (add_size config.message_buffer_size 1) (omega arith))

-- Any other message of a client of a valid server, without a NUL and no longer than the receive
-- buffer, goes to every client once, with the sender's name in front: the broadcast buffer holds
-- it, and the server does not change.
pub handle_message-broadcast :
    {server : ChatServer} (socket : ℕ) (text : Bytes)
    → IsValid server
    → has_socket socket server.clients ≡ true
    → All (λ c. c ≢ 0) text
    → strip_prefix rename_prefix text ≡ none
    → IsSized server.config
    → length text ≤ server.config.message_buffer_size
    → (name : Bytes) × (find_name socket server.clients ≡ some name)
      × (handle_message server socket text
          ≡ ok (server, send_all (broadcast_text name text) server.clients))
unfolding handle_message broadcast
handle_message-broadcast {server} socket text v member plain other sized h =
    let (name, found, fits) =
      find_name-Fits server.config.max_name_length socket server.clients v.short member in
    let inside : length (broadcast_text name text) < broadcast_size server.config =
      omega (arith, length-append name (codes ": " ++ text)) in
    (
      name,
      found,
      rw (stored_text-received server.config text sized h, received_text text plain, ◌>>=◌)
          (rw other (rw (found, ◌>>=◌) (rw (lt→ltb _ _ inside)))),
    )
