-- ===== src/Chat/Roster/Names.antt =====
-- The names of the clients behind a client that joins, and behind one that leaves.
use ntu_computer_network.Base.{
  ℕ, ◌≡◌, refl, ◌∙◌, inl, inr, false, none, some, List, [], ◌∷◌, ◌++◌, arith, ◌==◌, ==_iff,
  Bool-cases, if◌then◌else◌,
}
use ntu_computer_network.Chat.{ChatClient, last_first, fill_hole, remove_socket, find_name}
use ntu_computer_network.Chat.Members.{has_socket, IsDistinct, last_first-perm}
use ntu_computer_network.Chat.Leaving.{has_socket-last_first}

pub find_name-none :
    (t : ℕ) (cs : List ChatClient) → has_socket t cs ≡ false → find_name t cs ≡ none
unfolding find_name
find_name-none t [] h = refl
find_name-none t (c ∷ cs) h = ground (arith, find_name-none t cs)

pub find_name-append :
    (t : ℕ) (cs : List ChatClient) (c : ChatClient)
    → has_socket c.socket cs ≡ false
    → find_name t (cs ++ c ∷ []) ≡ (if c.socket == t then some c.name else find_name t cs)
unfolding find_name
find_name-append t [] c h = refl
find_name-append t (d ∷ ds) c h = ground (arith, find_name-append t ds c)

find_name-last_first :
    (t : ℕ) (c : ChatClient) (cs : List ChatClient)
    → IsDistinct (c ∷ cs)
    → find_name t (last_first c cs) ≡ find_name t (c ∷ cs)
unfolding find_name
find_name-last_first t c [] v = refl
find_name-last_first t c (d ∷ ds) v =
    let (l, init, e, p) = last_first-perm d ds in
    let ih : find_name t (l ∷ init) ≡ find_name t (d ∷ ds) =
      rw e at (find_name-last_first t d ds v.1) in
    let same : has_socket c.socket (l ∷ init) ≡ has_socket c.socket (d ∷ ds) =
      rw e at (has_socket-last_first c.socket d ds) in
    rw e (ground (arith, ih, same, v.0))

find_name-fill_hole :
    (t : ℕ) (cs : List ChatClient) → IsDistinct cs → find_name t (fill_hole cs) ≡ find_name t cs
find_name-fill_hole t [] v = refl
find_name-fill_hole t (d ∷ ds) v = find_name-last_first t d ds v

pub find_name-remove_socket :
    (s t : ℕ) (cs : List ChatClient)
    → IsDistinct cs
    → find_name t (remove_socket s cs) ≡ (if s == t then none else find_name t cs)
unfolding find_name remove_socket
find_name-remove_socket s t [] v = ground arith
find_name-remove_socket s t (c ∷ cs) v = elim (Bool-cases (c.socket == s)) [
  | inl e ↦
      let same : c.socket ≡ s = (==_iff c.socket s).0 e in
      let missing : find_name s cs ≡ none = find_name-none s cs (rw same at v.0) in
      rw e (
        find_name-fill_hole t cs v.1 ∙ elim (Bool-cases (s == t)) [
          | inl here ↦ rw here (rw ((==_iff s t).0 here) at missing)
          | inr other ↦ rw (other, same, other) refl
        ])
  | inr e ↦ rw e (ground (arith, find_name-remove_socket s t cs v.1, e))
]
