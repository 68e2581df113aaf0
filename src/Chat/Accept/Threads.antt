-- ===== src/Chat/Accept/Threads.antt =====
-- Which thread serves which client of the chat.
use ntu_computer_network.Base.{
  ℕ, ◌+◌, ◌≡◌, ◌≤◌, refl, ◌∙◌, ap, ==_iff, inl, inr, Bool, true, false, ◌&&◌, ◌||◌, not, some, List,
  [], ◌∷◌, ◌++◌, Bytes, length, ◌==◌, if◌then◌else◌, ok, arith, Bool-cases,
}
use ntu_computer_network.Chat.Accept.Sockets.{handle_message-SameSockets}
use ntu_computer_network.Chat.{
  ChatClient, ChatServer, ChatServerConfig, Send, init_chat_server, add_chat_client,
  remove_chat_client, handle_message,
}
use ntu_computer_network.Chat.Leaving.{remove_chat_client-IsValid}
use ntu_computer_network.Chat.Members.{
  has_socket, has_socket-append, IsValid, add_chat_client-IsValid,
}
use ntu_computer_network.Chat.Reach.{handle_message-Keeps, init-IsValid}
use ntu_computer_network.Chat.Accept.Sockets.{
  SameSockets, last_socket, last_client-socket, last_socket-append, has_socket-SameSockets,
  last_socket-SameSockets,
}
use ntu_computer_network.Chat.Accept.{
  last_client, AcceptPhase, accepting, unlocked, Listening, start_chat_server, Step, accepts,
  spawns, says, leaves, IsQuiet, QuietReach, listens, goes_on,
}

-- How many threads serve a socket.
unfoldable pub served : ℕ → List ℕ → ℕ
served s [] = 0
served s (t ∷ ts) = (if t == s then 1 else 0) + served s ts

pub served-append : (s : ℕ) (ts us : List ℕ) → served s (ts ++ us) ≡ served s ts + served s us
unfolding served
served-append s [] us = omega arith
served-append s (t ∷ ts) us = omega (arith, served-append s ts us)

abbrev pub awaited : ℕ → AcceptPhase → ℕ
awaited s accepting = 0
awaited s (unlocked t) = if t == s then 1 else 0

abbrev pub is_client : ChatServer → ℕ → ℕ
is_client server s = if has_socket s server.clients then 1 else 0

-- What `add_chat_client` is about to return is the client that it has added.
abbrev IsReady : AcceptPhase → List ChatClient → Type 0
IsReady accepting cs = Unit {0}
IsReady (unlocked s) cs = last_socket cs ≡ some s

record IsServed (l : Listening) : Type 0 where
  valid : IsValid l.server
  each : (s : ℕ) → served s l.threads + awaited s l.phase ≡ is_client l.server s
  ready : IsReady l.phase l.server.clients

IsReady-SameSockets :
    (phase : AcceptPhase) (cs ds : List ChatClient)
    → SameSockets cs ds
    → IsReady phase cs
    → IsReady phase ds
IsReady-SameSockets accepting cs ds h r = tt
IsReady-SameSockets (unlocked s) cs ds h r = last_socket-SameSockets cs ds h ∙ r

first_of : {r q : ChatServer × List Send} → ok r ≡ ok q → r.0 ≡ q.0
first_of {r} {q} e = let same : r ≡ q = cc in ap (λ x. x.0) same

pub served-one :
    (s : ℕ) (ts : List ℕ) (t : ℕ)
    → served s (ts ++ t ∷ []) ≡ served s ts + (if t == s then 1 else 0)
unfolding served
served-one s ts t = omega (arith, served-append s ts (t ∷ []))

pub served-middle :
    (s : ℕ) (before rest : List ℕ) (t : ℕ)
    → served s (before ++ t ∷ rest) ≡ served s (before ++ rest) + (if t == s then 1 else 0)
unfolding served
served-middle s before rest t =
    omega (arith, served-append s before (t ∷ rest), served-append s before rest)

fresh_each :
    (s socket n : ℕ) (server : ChatServer) {b : Bool}
    → n + 0 ≡ is_client server s
    → has_socket socket server.clients ≡ false
    → b ≡ (has_socket s server.clients || (socket == s || false))
    → n + (if socket == s then 1 else 0) ≡ (if b then 1 else 0)
fresh_each s socket n server {b} e fresh grown = elim (Bool-cases (socket == s)) [
  | inl same ↦
      let none_yet : has_socket s server.clients ≡ false = rw ((==_iff socket s).0 same) at fresh in
      ground arith
  | inr other ↦ ground arith
]

gone_each :
    (s socket n : ℕ) (server : ChatServer) {b : Bool}
    → n + (if socket == s then 1 else 0) ≡ is_client server s
    → b ≡ (has_socket s server.clients && not (s == socket))
    → n ≡ (if b then 1 else 0)
gone_each s socket n server {b} e gone = ground arith

accepts-IsServed :
    {l : Listening} {after : ChatServer} (socket : ℕ)
    → IsServed l
    → l.phase ≡ accepting
    → has_socket socket l.server.clients ≡ false
    → add_chat_client l.server socket ≡ ok after
    → IsServed (record l { server = after; phase = unlocked socket })
accepts-IsServed {l} {after} socket v idle fresh run =
    let (after', run', clients, config, valid) = add_chat_client-IsValid socket v.valid fresh in
    let same : after' ≡ after = cc in
    let grown : after.clients ≡ l.server.clients ++ _ ∷ [] = rw same at clients in
    record {
      valid = rw same at valid;
      each = λ s.
          fresh_each s socket _ l.server (rw idle at (v.each s)) fresh
            (rw grown (has_socket-append s l.server.clients _));
      ready = rw grown (last_socket-append l.server.clients _);
    }

spawns-IsServed :
    {l : Listening} {client : ChatClient} (socket : ℕ)
    → IsServed l
    → l.phase ≡ unlocked socket
    → last_client l.server.clients ≡ ok client
    → IsServed (record l { phase = accepting; threads = l.threads ++ client.socket ∷ [] })
spawns-IsServed {l} {client} socket v busy run =
    let here : client.socket ≡ socket =
      last_client-socket l.server.clients run (rw busy at v.ready) in
    record {
      valid = v.valid;
      each = λ s. rw here (omega (arith, served-one s l.threads socket, rw busy at (v.each s)));
      ready = tt;
    }

says-IsServed :
    {l : Listening} {after : ChatServer} (socket : ℕ) (received : Bytes) (calls : List Send)
    → IsServed l
    → has_socket socket l.server.clients ≡ true
    → length received ≤ l.server.config.message_buffer_size
    → handle_message l.server socket received ≡ ok (after, calls)
    → IsServed (record l { server = after })
says-IsServed {l} {after} socket received calls v member fits run =
    let sockets = handle_message-SameSockets l.server socket received calls run in
    record {
      valid = (handle_message-Keeps socket received calls v.valid run).valid;
      each = λ s. v.each s ∙ rw (has_socket-SameSockets s l.server.clients after.clients sockets);
      ready = IsReady-SameSockets l.phase l.server.clients after.clients sockets v.ready;
    }

leaves-IsServed :
    {l : Listening} (before rest : List ℕ) (socket : ℕ)
    → IsServed l
    → l.phase ≡ accepting
    → l.threads ≡ before ++ socket ∷ rest
    → IsServed (record l { server = remove_chat_client l.server socket; threads = before ++ rest })
leaves-IsServed {l} before rest socket v idle split =
    let (valid, gone) = remove_chat_client-IsValid socket v.valid in
    record {
      valid = valid;
      each = λ s.
          gone_each s socket _ l.server
            (omega (arith, rw split at (v.each s), served-middle s before rest socket)) (gone s);
      ready = rw idle tt;
    }

Step-IsServed : {l m : Listening} → IsServed l → (step : Step l m) → IsQuiet step → IsServed m
Step-IsServed v (accepts socket idle fresh run) quiet = accepts-IsServed socket v idle fresh run
Step-IsServed v (spawns socket busy run) quiet = spawns-IsServed socket v busy run
Step-IsServed v (says before rest socket received calls split member fits run) quiet =
    says-IsServed socket received calls v member fits run
Step-IsServed v (leaves before rest socket split member) quiet =
    leaves-IsServed before rest socket v quiet split

listens-IsServed :
    (config : ChatServerConfig) {l : Listening}
    → 29 ≤ config.max_name_length
    → start_chat_server true (init_chat_server config) ≡ some l
    → IsServed l
unfolding start_chat_server init_chat_server served
listens-IsServed config {l} room e =
    let same : record { server = init_chat_server config; phase = accepting; threads = [] } ≡ l =
      cc in
    rw (← same) (record { valid = init-IsValid config room; each = λ s. refl; ready = tt })

QuietReach-IsServed :
    {config : ChatServerConfig} {l : Listening}
    → 29 ≤ config.max_name_length
    → QuietReach config l
    → IsServed l
QuietReach-IsServed room (listens e) = listens-IsServed _ room e
QuietReach-IsServed room (goes_on before step quiet) =
    Step-IsServed (QuietReach-IsServed room before) step quiet

-- From the start of the chat on, when the configuration allows names of 29 bytes and no client leaves
-- between the unlocking and the `return` of `add_chat_client`: each client has exactly one thread, or
-- is the one that `add_chat_client` is about to return, and no thread serves a socket that is not a
-- client's.
pub threads_served :
    {config : ChatServerConfig} {l : Listening}
    → 29 ≤ config.max_name_length
    → QuietReach config l
    → (s : ℕ) → served s l.threads + awaited s l.phase ≡ is_client l.server s
threads_served room r = (QuietReach-IsServed room r).each
