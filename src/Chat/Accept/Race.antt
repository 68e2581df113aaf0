-- ===== src/Chat/Accept/Race.antt =====
-- What goes wrong when a client leaves while `add_chat_client` returns.
use ntu_computer_network.Base.{
  ℕ, suc, ◌+◌, ◌≡◌, refl, ◌∙◌, true, false, List, [], ◌∷◌, ◌++◌, ◌==◌, if◌then◌else◌, arith,
}
use ntu_computer_network.Chat.{
  ChatClient, ChatServer, remove_chat_client, last_first, fill_hole, default_name,
}
use ntu_computer_network.Chat.Members.{
  has_socket, has_socket-append, IsDistinct, IsValid, add_chat_client-IsValid, remove_socket_here,
}
use ntu_computer_network.Chat.Accept.{accepting, unlocked, Listening, Step, accepts, spawns, leaves}
use ntu_computer_network.Chat.Accept.Sockets.{last_client-append}
use ntu_computer_network.Chat.Accept.Threads.{served, served-one, served-middle}

last_first-snoc :
    (c : ChatClient) (cs : List ChatClient) (n : ChatClient)
    → last_first c (cs ++ n ∷ []) ≡ n ∷ c ∷ cs
last_first-snoc c [] n = refl
last_first-snoc c (d ∷ ds) n = rw (last_first-snoc d ds n)

fill_hole-snoc : (cs : List ChatClient) (n : ChatClient) → fill_hole (cs ++ n ∷ []) ≡ n ∷ cs
fill_hole-snoc [] n = refl
fill_hole-snoc (d ∷ ds) n = last_first-snoc d ds n

removed_first :
    (server : ChatServer) (first n : ChatClient) (cs : List ChatClient)
    → server.clients ≡ (first ∷ cs) ++ n ∷ []
    → (remove_chat_client server first.socket).clients ≡ n ∷ cs
unfolding remove_chat_client
removed_first server first n cs e =
    rw e (remove_socket_here first.socket first (cs ++ n ∷ []) refl ∙ fill_hole-snoc cs n)

-- A thread less for `a`, and one more for `b`.
served-moved :
    (s a b : ℕ) (before rest : List ℕ)
    → served s ((before ++ rest) ++ b ∷ []) + (if a == s then 1 else 0)
      ≡ served s (before ++ a ∷ rest) + (if b == s then 1 else 0)
served-moved s a b before rest =
    omega (arith, served-one s (before ++ rest) b, served-middle s before rest a)

not_socket :
    (s : ℕ) (first last : ChatClient) (mid : List ChatClient)
    → has_socket s (first ∷ mid ++ last ∷ []) ≡ false
    → ((first.socket == s) ≡ false) × ((last.socket == s) ≡ false)
not_socket s first last mid h = ground (arith, h, has_socket-append s mid (last ∷ []))

distinct_last :
    (first last : ChatClient) (mid : List ChatClient)
    → IsDistinct (first ∷ mid ++ last ∷ [])
    → (last.socket == first.socket) ≡ false
distinct_last first last mid v = ground (arith, v.0, has_socket-append first.socket mid (last ∷ []))

-- A chat with two clients or more, whose first one has a thread of its own, and names of 29 bytes
-- allowed: another client joins, and before `add_chat_client` returns, the first one leaves. Then the
-- new thread serves the client that was last before, so that client has a thread more than it had,
-- and the client that has joined has none more.
pub wrong_thread :
    {l : Listening} (first last : ChatClient) (mid : List ChatClient) (before rest : List ℕ)
    (socket : ℕ)
    → IsValid l.server
    → l.phase ≡ accepting
    → l.server.clients ≡ first ∷ mid ++ last ∷ []
    → l.threads ≡ before ++ first.socket ∷ rest
    → has_socket socket l.server.clients ≡ false
    → (joined : Listening) × (left : Listening) × (m : Listening) × Step l joined
      × Step joined left
      × Step left m
      × (m.phase ≡ accepting)
      × (has_socket socket m.server.clients ≡ true)
      × (served socket m.threads ≡ served socket l.threads)
      × (served last.socket m.threads ≡ suc (served last.socket l.threads))
wrong_thread {l} first last mid before rest socket v idle clients split fresh =
    let (after, run, grown, config, valid) = add_chat_client-IsValid socket v fresh in
    let n : ChatClient = record {
      name = default_name l.server.client_increment;
      socket = socket;
    } in
    let all : after.clients ≡ (first ∷ mid ++ last ∷ []) ++ n ∷ [] = rw clients at grown in
    let server = remove_chat_client after first.socket in
    let left : server.clients ≡ (n ∷ mid) ++ last ∷ [] = removed_first after first n _ all in
    let other = distinct_last first last mid (rw clients at v.distinct) in
    let (first_new, last_new) = not_socket socket first last mid (rw clients at fresh) in
    (
      record l { server = after; phase = unlocked socket },
      record l { server = server; phase = unlocked socket; threads = before ++ rest },
      record l {
        server = server;
        threads = (before ++ rest) ++ last.socket ∷ [];
        phase = accepting;
      },
      accepts socket idle fresh run,
      leaves before rest first.socket split (rw all (ground arith)),
      spawns {client = last} socket refl (rw left (last_client-append (n ∷ mid) last)),
      refl,
      rw left (ground arith),
      rw split (ground (arith, served-moved socket first.socket last.socket before rest)),
      rw split (ground (arith, served-moved last.socket first.socket last.socket before rest)),
    )
