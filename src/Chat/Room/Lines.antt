-- ===== src/Chat/Room/Lines.antt =====
-- What a client is sent by broadcasts: the calls of `send` one by one, and the clients they reach.
use ntu_computer_network.Base.{
  ℕ, zero, suc, ◌≡◌, ◌<◌, refl, ap, ==_iff, ◌∙◌, inl, inr, Bool, true, false, ◌||◌, some, List, [],
  ◌∷◌, ◌++◌, append-nil, arith, Bytes, length, take, get_elem?, map, ◌==◌, Bool-cases,
  if◌then◌else◌,
}
use ntu_computer_network.Chat.{ChatClient, Send}
use ntu_computer_network.Chat.Members.{has_socket, other_socket, IsDistinct}
use ntu_computer_network.Chat.Accept.Sockets.{SameSockets}
use ntu_computer_network.Chat.Room.{Sent, line_to, answer, Broadcast, lines_to, heard}

pub lines_to-append :
    (s : ℕ) (xs ys : List Sent) → lines_to s (xs ++ ys) ≡ lines_to s xs ++ lines_to s ys
unfolding lines_to
lines_to-append s [] ys = refl
lines_to-append s (line_to t line ∷ xs) ys = elim (Bool-cases (t == s)) [
  | inl e ↦ rw e (ap (λ l. line ∷ l) (lines_to-append s xs ys))
  | inr e ↦ rw e (lines_to-append s xs ys)
]
lines_to-append s (answer send ∷ xs) ys = lines_to-append s xs ys

lines_to-answers : (s : ℕ) (calls : List Send) → lines_to s (map answer calls) ≡ []
unfolding lines_to
lines_to-answers s [] = refl
lines_to-answers s (c ∷ cs) = lines_to-answers s cs

pub answers_unheard :
    (s : ℕ) (sent : List Sent) (calls : List Send)
    → lines_to s (sent ++ map answer calls) ≡ lines_to s sent
answers_unheard s sent calls =
    lines_to-append s sent (map answer calls)
    ∙ rw (lines_to-answers s calls, append-nil (lines_to s sent)) refl

pub heard-append : (s : ℕ) (xs ys : List Broadcast) → heard s (xs ++ ys) ≡ heard s xs ++ heard s ys
unfolding heard
heard-append s [] ys = refl
heard-append s (b ∷ xs) ys = elim (Bool-cases (has_socket s b.members)) [
  | inl e ↦ rw e (ap (λ l. b.line ∷ l) (heard-append s xs ys))
  | inr e ↦ rw e (heard-append s xs ys)
]

-- The line, if it has come to the client.
abbrev pub line_if : Bool → Bytes → List Bytes
line_if b line = if b then line ∷ [] else []

pub has_socket-take :
    (s i : ℕ) (cs : List ChatClient) {c : ChatClient}
    → get_elem? cs i ≡ some c
    → has_socket s (take (suc i) cs) ≡ (has_socket s (take i cs) || c.socket == s)
has_socket-take s i [] e = absurd (cc)
has_socket-take s zero (d ∷ ds) {c} e = let same : d ≡ c = cc in rw same (ground arith)
has_socket-take s (suc i) (d ∷ ds) e = ground (arith, has_socket-take s i ds e)

member_at :
    (i : ℕ) (cs : List ChatClient) {c : ChatClient}
    → get_elem? cs i ≡ some c
    → has_socket c.socket cs ≡ true
member_at i [] e = absurd (cc)
member_at zero (d ∷ ds) {c} e = let same : d ≡ c = cc in rw same (ground arith)
member_at (suc i) (d ∷ ds) {c} e = ground (arith, member_at i ds e)

-- The client at an index is not among those before it.
pub new_at :
    (i : ℕ) (cs : List ChatClient) {c : ChatClient}
    → IsDistinct cs
    → get_elem? cs i ≡ some c
    → has_socket c.socket (take i cs) ≡ false
new_at i [] v e = absurd (cc)
new_at zero (d ∷ ds) v e = refl
new_at (suc i) (d ∷ ds) {c} v e =
    let apart = other_socket d ds c.socket v.0 (member_at i ds e) in
    ground (arith, new_at i ds v.1 e)

pub take-length : (cs : List ChatClient) → take (length cs) cs ≡ cs
take-length [] = refl
take-length (c ∷ cs) = ap (λ l. c ∷ l) (take-length cs)

pub SameSockets-take :
    (i : ℕ) (cs ds : List ChatClient) → SameSockets cs ds → SameSockets (take i cs) (take i ds)
SameSockets-take zero cs ds h = tt
SameSockets-take (suc i) [] [] h = tt
SameSockets-take (suc i) [] (d ∷ ds) h = absurd h
SameSockets-take (suc i) (c ∷ cs) [] h = absurd h
SameSockets-take (suc i) (c ∷ cs) (d ∷ ds) h = (h.0, SameSockets-take i cs ds h.1)

pub SameSockets-trans :
    (bs cs ds : List ChatClient) → SameSockets bs cs → SameSockets cs ds → SameSockets bs ds
SameSockets-trans [] [] [] h k = tt
SameSockets-trans [] [] (d ∷ ds) h k = absurd k
SameSockets-trans [] (c ∷ cs) ds h k = absurd h
SameSockets-trans (b ∷ bs) [] ds h k = absurd h
SameSockets-trans (b ∷ bs) (c ∷ cs) [] h k = absurd k
SameSockets-trans (b ∷ bs) (c ∷ cs) (d ∷ ds) h k = (h.0 ∙ k.0, SameSockets-trans bs cs ds h.1 k.1)

pub length-SameSockets : (cs ds : List ChatClient) → SameSockets cs ds → length ds ≡ length cs
length-SameSockets [] [] h = refl
length-SameSockets [] (d ∷ ds) h = absurd h
length-SameSockets (c ∷ cs) [] h = absurd h
length-SameSockets (c ∷ cs) (d ∷ ds) h = ap suc (length-SameSockets cs ds h.1)

line_if-once :
    (old hit new : Bool) (before : List Bytes) (line : Bytes)
    → new ≡ (old || hit)
    → (hit ≡ true → old ≡ false)
    → (before ++ line_if old line) ++ line_if hit line ≡ before ++ line_if new line
line_if-once true true new before line e once = absurd (cc (once refl))
line_if-once true false new before line e once = rw e (append-nil (before ++ line ∷ []))
line_if-once false hit new before line e once = rw (e, append-nil before)

-- A broadcast reaches one client more.
pub sends-lines_to :
    (s i : ℕ) (line : Bytes) (sent : List Sent) (before : List Bytes) (cs : List ChatClient)
    {c : ChatClient}
    → IsDistinct cs
    → get_elem? cs i ≡ some c
    → lines_to s sent ≡ before ++ line_if (has_socket s (take i cs)) line
    → lines_to s (sent ++ line_to c.socket line ∷ [])
      ≡ before ++ line_if (has_socket s (take (suc i) cs)) line
unfolding lines_to
sends-lines_to s i line sent before cs {c} v at told =
    lines_to-append s sent (line_to c.socket line ∷ [])
    ∙ (rw told (
        line_if-once (has_socket s (take i cs)) (c.socket == s) _ before line
          (has_socket-take s i cs at)
          (λ here. rw ((==_iff c.socket s).0 here) at (new_at i cs v at))))

pub get_elem?-lt :
    (i : ℕ) (cs : List ChatClient) {c : ChatClient} → get_elem? cs i ≡ some c → i < length cs
get_elem?-lt i [] e = absurd (cc)
get_elem?-lt zero (d ∷ ds) e = omega arith
get_elem?-lt (suc i) (d ∷ ds) e = omega (arith, get_elem?-lt i ds e)
