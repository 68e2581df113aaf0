-- ===== src/Chat/Leaving.antt =====
-- Leaving the chat: what `remove_chat_client` keeps.
use ntu_computer_network.Base.{
  ℕ, ◌≡◌, refl, ap, inl, inr, not, ◌&&◌, List, [], ◌∷◌, arith, ◌==◌, ==_iff, Bool-cases, All,
}
use ntu_computer_network.Chat.{
  ChatClient, ChatServer, last_first, fill_hole, remove_socket, remove_chat_client,
}
use ntu_computer_network.Chat.Members.{has_socket, IsDistinct, Fits, IsValid, last_first-perm}

last_first-All :
    (limit : ℕ) (c : ChatClient) (cs : List ChatClient)
    → All (Fits limit) (c ∷ cs)
    → All (Fits limit) (last_first c cs)
last_first-All limit c [] a = a
last_first-All limit c (d ∷ ds) a =
    let (l, init, e, p) = last_first-perm d ds in
    let (fits, rest) : All (Fits limit) (l ∷ init) = rw e at (last_first-All limit d ds a.1) in
    rw e (fits, (a.0, rest))

pub has_socket-last_first :
    (s : ℕ) (c : ChatClient) (cs : List ChatClient)
    → has_socket s (last_first c cs) ≡ has_socket s (c ∷ cs)
has_socket-last_first s c [] = refl
has_socket-last_first s c (d ∷ ds) =
    let (l, init, e, p) = last_first-perm d ds in
    let ih : has_socket s (l ∷ init) ≡ has_socket s (d ∷ ds) =
      rw e at (has_socket-last_first s d ds) in
    rw e (ground arith)

last_first-IsDistinct :
    (c : ChatClient) (cs : List ChatClient) → IsDistinct (c ∷ cs) → IsDistinct (last_first c cs)
last_first-IsDistinct c [] v = v
last_first-IsDistinct c (d ∷ ds) v =
    let (l, init, e, p) = last_first-perm d ds in
    let ih : IsDistinct (l ∷ init) = rw e at (last_first-IsDistinct d ds v.1) in
    let same : has_socket c.socket (l ∷ init) ≡ has_socket c.socket (d ∷ ds) =
      rw e at (has_socket-last_first c.socket d ds) in
    rw e (ground arith, (ground arith, ih.1))

fill_hole-keeps :
    (limit : ℕ) (cs : List ChatClient)
    → IsDistinct cs
    → All (Fits limit) cs
    → IsDistinct (fill_hole cs)
      × All (Fits limit) (fill_hole cs)
      × ((s : ℕ) → has_socket s (fill_hole cs) ≡ has_socket s cs)
fill_hole-keeps limit [] v a = (tt, tt, λ s. refl)
fill_hole-keeps limit (d ∷ ds) v a =
    (last_first-IsDistinct d ds v, last_first-All limit d ds a, λ s. has_socket-last_first s d ds)

-- What is left when a client is gone: no socket is new, and that of the client is free.
remove_socket-keeps :
    (limit s : ℕ) (cs : List ChatClient)
    → IsDistinct cs
    → All (Fits limit) cs
    → IsDistinct (remove_socket s cs)
      × All (Fits limit) (remove_socket s cs)
      × ((t : ℕ) → has_socket t (remove_socket s cs) ≡ (has_socket t cs && not (t == s)))
unfolding remove_socket
remove_socket-keeps limit s [] v a = (tt, tt, λ t. refl)
remove_socket-keeps limit s (c ∷ cs) v a = elim (Bool-cases (c.socket == s)) [
  | inl e ↦
      let (d, f, same) = fill_hole-keeps limit cs v.1 a.1 in
      rw e (d, f, λ t. ground (arith, same t, ap (λ k. has_socket k cs) ((==_iff c.socket s).0 e)))
  | inr e ↦
      let (d, f, same) = remove_socket-keeps limit s cs v.1 a.1 in
      rw e ((ground (arith, same c.socket), d), (a.0, f), λ t. ground (arith, same t))
]

-- `remove_chat_client` keeps the server valid, frees the socket, and takes no other client away.
pub remove_chat_client-IsValid :
    {server : ChatServer} (socket : ℕ)
    → IsValid server
    → IsValid (remove_chat_client server socket)
      × ((t : ℕ)
          → has_socket t (remove_chat_client server socket).clients
            ≡ (has_socket t server.clients && not (t == socket)))
unfolding remove_chat_client
remove_chat_client-IsValid {server} socket v =
    let (d, f, same) =
      remove_socket-keeps server.config.max_name_length socket server.clients v.distinct v.short in
    (record { room = v.room; distinct = d; short = f }, same)
