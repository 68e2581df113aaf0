-- ===== src/Chat/Members.antt =====
-- Who is in the chat: joining and leaving, and the shape that every call keeps.
use ntu_computer_network.Base.{
  ◌^◌, ◌+◌, ℕ, ◌-◌, ◌≤◌, ◌<◌, ◌≡◌, refl, ◌≢◌, inl, inr, Bool, true, false, ◌||◌, List, [], ◌∷◌,
  ◌++◌, arith, ltb, ◌==◌, lt→ltb, eq→==, ne→==, ==_iff, ==→ne, Bool-cases, length, replicate, All,
  All-append, length-append, length-replicate, out_of_bounds, ok, fault, add_size, decimal,
  length-decimal,
}
use mathlib.Core.List.{Perm}
use mathlib.Core.List.Perm
use ntu_computer_network.Chat.{
  ChatServerConfig, ChatClient, ChatServer, default_name, add_chat_client, last_first, fill_hole,
  remove_socket,
}

abbrev pub has_socket : ℕ → List ChatClient → Bool
has_socket s [] = false
has_socket s (c ∷ cs) = c.socket == s || has_socket s cs

pub other_socket :
    (c : ChatClient) (cs : List ChatClient) (s : ℕ)
    → has_socket c.socket cs ≡ false
    → has_socket s cs ≡ true
    → (c.socket == s) ≡ false
other_socket c cs s new old = elim (Bool-cases (c.socket == s)) [
  | inl e ↦
      let missing : has_socket s cs ≡ false = rw ((==_iff c.socket s).0 e) at new in absurd (cc)
  | inr e ↦ e
]

-- No two clients have the same socket.
abbrev pub IsDistinct : List ChatClient → Type 0
IsDistinct [] = Unit {0}
IsDistinct (c ∷ cs) = (has_socket c.socket cs ≡ false) × IsDistinct cs

-- A name fits into the buffers that are sized by `limit`.
abbrev pub Fits : ℕ → ChatClient → Type 0
Fits limit c = length c.name ≤ limit

-- The sums of sizes in `handle_chat_client` do not wrap.
abbrev pub IsSized : ChatServerConfig → Type 0
IsSized config = config.message_buffer_size + config.max_name_length + 3 < 2 ^ 64

-- A server whose configuration leaves room for every default name.
pub record IsValid (server : ChatServer) : Type 0 where
  pub room : 29 ≤ server.config.max_name_length
  pub distinct : IsDistinct server.clients
  pub short : All (Fits server.config.max_name_length) server.clients

pub last_first-perm :
    (c : ChatClient) (cs : List ChatClient)
    → (l : ChatClient) × (init : List ChatClient) × (last_first c cs ≡ l ∷ init)
      × Perm (c ∷ cs) (l ∷ init)
last_first-perm c [] = (c, [], refl, Perm.refl (c ∷ []))
last_first-perm c (d ∷ ds) =
    let (l, init, e, p) = last_first-perm d ds in
    (l, c ∷ init, rw e refl, Perm.trans (Perm.cons c p) (Perm.swap l c init))

fill_hole-perm : (cs : List ChatClient) → Perm cs (fill_hole cs)
fill_hole-perm [] = Perm.refl []
fill_hole-perm (d ∷ ds) = let (l, init, e, p) = last_first-perm d ds in rw e p

pub remove_socket_here :
    (s : ℕ) (c : ChatClient) (cs : List ChatClient)
    → c.socket ≡ s
    → remove_socket s (c ∷ cs) ≡ fill_hole cs
unfolding remove_socket
remove_socket_here s c cs e = rw (eq→== c.socket s e)

remove_socket_later :
    (s : ℕ) (c : ChatClient) (cs : List ChatClient)
    → c.socket ≢ s
    → remove_socket s (c ∷ cs) ≡ c ∷ remove_socket s cs
unfolding remove_socket
remove_socket_later s c cs e = rw (ne→== c.socket s e)

-- `remove_chat_client` of a client takes it out and keeps all the others, their order aside.
pub remove_socket-perm :
    (s : ℕ) (cs : List ChatClient)
    → has_socket s cs ≡ true
    → (c : ChatClient) × (c.socket ≡ s) × Perm cs (c ∷ remove_socket s cs)
remove_socket-perm s [] h = absurd (cc)
remove_socket-perm s (c ∷ cs) h = elim (Bool-cases (c.socket == s)) [
  | inl e ↦
      let here = (==_iff c.socket s).0 e in
      (c, here, rw (remove_socket_here s c cs here) (Perm.cons c (fill_hole-perm cs)))
  | inr e ↦
      let (d, at, p) = remove_socket-perm s cs (rw e at h) in
      (
        d,
        at,
        rw (remove_socket_later s c cs (==→ne c.socket s e))
            (Perm.trans (Perm.cons c p) (Perm.swap d c (remove_socket s cs))),
      )
]

-- Nothing happens where no client has the socket.
pub remove_socket_missing :
    (s : ℕ) (cs : List ChatClient) → has_socket s cs ≡ false → remove_socket s cs ≡ cs
unfolding remove_socket
remove_socket_missing s [] h = refl
remove_socket_missing s (c ∷ cs) h = ground (arith, remove_socket_missing s cs)

length-default_name : (n : ℕ) → length (default_name n) ≤ 28
length-default_name n = omega (
  arith,
  length-append (replicate (3 - length (decimal n)) b'0') (decimal n),
  length-replicate {A = ℕ} (3 - length (decimal n)) b'0',
  length-decimal n,
)

pub has_socket-append :
    (s : ℕ) (cs ds : List ChatClient)
    → has_socket s (cs ++ ds) ≡ (has_socket s cs || has_socket s ds)
has_socket-append s [] ds = refl
has_socket-append s (c ∷ cs) ds = ground (arith, has_socket-append s cs ds)

IsDistinct-snoc :
    (cs : List ChatClient) (d : ChatClient)
    → IsDistinct cs
    → has_socket d.socket cs ≡ false
    → IsDistinct (cs ++ d ∷ [])
IsDistinct-snoc [] d v h = (refl, tt)
IsDistinct-snoc (c ∷ cs) d v h = (
  rw (has_socket-append c.socket cs (d ∷ [])) (ground arith),
  IsDistinct-snoc cs d v.1 (ground arith),
)

added : ChatServer → ℕ → ChatServer
added server socket = record server {
  clients =
      server.clients
      ++ (record { name = default_name server.client_increment; socket = socket }) ∷ [];
  client_increment = add_size server.client_increment 1;
}

-- `add_chat_client` on a valid server, for a socket that no client has: the default name fits its
-- buffer, the client stands behind the others, and the server stays valid.
pub add_chat_client-IsValid :
    {server : ChatServer} (socket : ℕ)
    → IsValid server
    → has_socket socket server.clients ≡ false
    → (after : ChatServer) × (add_chat_client server socket ≡ ok after)
      × (after.clients
          ≡ server.clients
            ++ (record { name = default_name server.client_increment; socket = socket }) ∷ [])
      × (after.config ≡ server.config)
      × IsValid after
unfolding add_chat_client added
add_chat_client-IsValid {server} socket v fresh = (
  added server socket,
  rw (
      lt→ltb (length (default_name server.client_increment)) server.config.max_name_length
        (omega (arith, v.room, length-default_name server.client_increment))),
  refl,
  refl,
  record {
    room = v.room;
    distinct = IsDistinct-snoc server.clients _ v.distinct fresh;
    short =
        All-append (Fits server.config.max_name_length) server.clients _ v.short
          (omega (arith, v.room, length-default_name server.client_increment), tt);
  },
)

default_name-length : (n : ℕ) → 11 ≤ length (default_name n)
default_name-length n = omega (
  arith,
  length-append (replicate (3 - length (decimal n)) b'0') (decimal n),
  length-replicate {A = ℕ} (3 - length (decimal n)) b'0',
)

pub not-ltb : (a b : ℕ) → b ≤ a → ltb a b ≡ false
not-ltb a b h = ground arith

-- `CHAT_SERVER_MAX_NAME_LENGTH` below 12: every client that joins overflows the buffer of its name.
pub add_chat_client_overflow :
    (server : ChatServer) (socket : ℕ)
    → server.config.max_name_length < 12
    → add_chat_client server socket ≡ fault out_of_bounds
unfolding add_chat_client
add_chat_client_overflow server socket h =
    let long = default_name-length server.client_increment in
    rw (
      not-ltb (length (default_name server.client_increment)) server.config.max_name_length
        (omega arith))
