-- ===== src/Chat/Room/Ends.antt =====
-- A broadcast that is going on comes to its end when the clients read.
use ntu_computer_network.Base.{
  All, ℕ, zero, suc, ◌≤◌, ◌≡◌, refl, ap, sym, ◌∙◌, inl, inr, Bool, true, false, ◌||◌, some, List,
  [], ◌∷◌, ◌++◌, append_assoc, append-nil, arith, Bool-cases, Bytes, length, length-append,
  get_elem?, get_elem?-append, drop, take,
}
use ntu_computer_network.Chat.{ChatClient, ChatServerConfig}
use ntu_computer_network.Chat.Room.Order.{Reach-IsFair}
use ntu_computer_network.Chat.Room.Blocking.{Moves, stays, moves}
use ntu_computer_network.Chat.Room.{
  ThreadPhase, receiving, sending, composed, Thread, Mutex, unheld, held, Sent, line_to, Room,
  empty_room, Step, joins, leaves, renames, composes, locks, sends, unlocks, Reach, opens, goes_on,
}

abbrev is_sending : ThreadPhase → Bool
is_sending sending = true
is_sending receiving = false
is_sending (composed line) = false

has_sender : List Thread → Bool
has_sender [] = false
has_sender (t ∷ ts) = is_sending t.phase || has_sender ts

-- A thread that holds the mutex is in its loop.
abbrev HasSender : Mutex → List Thread → Type 0
HasSender unheld threads = Unit
HasSender (held line i) threads = has_sender threads ≡ true

-- A thread in the middle, when it moves between phases that are not the loop, changes nothing.
has_sender-append :
    (before rest : List Thread) (t : Thread)
    → has_sender (before ++ t ∷ rest)
      ≡ (has_sender before || (is_sending t.phase || has_sender rest))
unfolding has_sender
has_sender-append [] rest t = refl
has_sender-append (b ∷ before) rest t = ground (arith, has_sender-append before rest t)

sending_phase : (p : ThreadPhase) → is_sending p ≡ true → p ≡ sending
sending_phase sending e = refl
sending_phase receiving e = absurd (cc)
sending_phase (composed line) e = absurd (cc)

find_sender :
    (threads : List Thread)
    → has_sender threads ≡ true
    → (before : List Thread) × (socket : ℕ) × (rest : List Thread) × (threads
        ≡ before ++ (record { socket = socket; phase = sending }) ∷ rest)
unfolding has_sender
find_sender [] e = absurd (cc)
find_sender (t ∷ ts) e = elim (Bool-cases (is_sending t.phase)) [
  | inl here ↦ (
    [],
    t.socket,
    ts,
    ap (λ p. (record { socket = t.socket; phase = p }) ∷ ts) (sending_phase t.phase here),
  )
  | inr other ↦
      let (before, socket, rest, split) = find_sender ts (rw other at e) in
      (t ∷ before, socket, rest, ap (λ l. t ∷ l) split)
]

composes-HasSender :
    (mutex : Mutex) {threads : List Thread} (before rest : List Thread) (socket : ℕ) (line : Bytes)
    → threads ≡ before ++ (record { socket = socket; phase = receiving }) ∷ rest
    → HasSender mutex threads
    → HasSender mutex (before ++ (record { socket = socket; phase = composed line }) ∷ rest)
composes-HasSender unheld before rest socket line split h = tt
composes-HasSender (held text i) before rest socket line split h =
    has_sender-append before rest (record { socket = socket; phase = composed line })
    ∙ sym (has_sender-append before rest (record { socket = socket; phase = receiving }))
    ∙ ap has_sender (sym split)
    ∙ h

Step-HasSender : {r s : Room} → Step r s → HasSender r.mutex r.threads → HasSender s.mutex s.threads
Step-HasSender {r} (joins {after} socket idle fresh run) h = rw idle tt
Step-HasSender {r} (leaves before rest socket split idle) h = rw idle tt
Step-HasSender {r} (renames before rest socket received split member fits asks run) h = h
Step-HasSender {r}
      (composes {name} {line} before rest socket received split fits talks known printed) h =
    composes-HasSender r.mutex before rest socket line split h
Step-HasSender {r} (locks before rest socket line split idle) h =
    has_sender-append before rest (record { socket = socket; phase = sending }) ∙ ground arith
Step-HasSender {r} (sends line i busy at) h = rw busy at h
Step-HasSender {r} (unlocks before rest socket line i split busy done) h = tt

Reach-HasSender :
    {config : ChatServerConfig} {r : Room} → Reach config r → HasSender r.mutex r.threads
unfolding empty_room
Reach-HasSender opens = tt
Reach-HasSender (goes_on before step) = Step-HasSender step (Reach-HasSender before)

-- The calls of `send` that are left.
abbrev pub lines_left : Bytes → List ChatClient → List Sent
lines_left line [] = []
lines_left line (c ∷ cs) = line_to c.socket line ∷ lines_left line cs

take-drop :
    (i : ℕ) (cs : List ChatClient)
    → i ≤ length cs
    → (take i cs ++ drop i cs ≡ cs) × (length (take i cs) ≡ i)
take-drop zero cs h = (refl, refl)
take-drop (suc i) [] h = elim h [ ]
take-drop (suc i) (c ∷ cs) h =
    let (whole, reached) = take-drop i cs (omega arith) in (ap (λ l. c ∷ l) whole, ap suc reached)

-- The broadcast goes on from behind the clients it has come to.
finish :
    (takes : ℕ → Bool) (line : Bytes) (more before : List ChatClient) (r : Room)
    → r.server.clients ≡ before ++ more
    → r.mutex ≡ held line (length before)
    → has_sender r.threads ≡ true
    → All (λ c. takes c.socket ≡ true) more
    → (s : Room) × Moves takes r s
      × (s.mutex ≡ unheld)
      × (s.server ≡ r.server)
      × (s.history ≡ r.history)
      × (s.sent ≡ r.sent ++ lines_left line more)
finish takes line [] before r split busy sender all =
    let (first, socket, rest, here) = find_sender r.threads sender in
    (
      _,
      moves
          (unlocks first rest socket line (length before) here busy
            (ap length (sym (append-nil before)) ∙ ap length (sym split)))
          tt stays,
      refl,
      refl,
      refl,
      sym (append-nil r.sent),
    )
finish takes line (c ∷ more) before r split busy sender all =
    let at : get_elem? r.server.clients (length before) ≡ some c =
      ap (λ l. get_elem? l (length before)) split
      ∙ ap (get_elem? (before ++ c ∷ more)) (omega arith)
      ∙ get_elem?-append before (c ∷ more) 0 in
    let next : Room = record r {
      mutex = held line (suc (length before));
      sent = r.sent ++ line_to c.socket line ∷ [];
    } in
    let (s, steps, idle, same, told, sent) =
      finish takes line more (before ++ c ∷ []) next
        (split ∙ sym (append_assoc before (c ∷ []) more))
        (ap (held line) (omega (arith, length-append before (c ∷ [])))) sender all.1 in
    (
      s,
      moves (sends line (length before) busy at) all.0 steps,
      idle,
      same,
      told,
      sent ∙ append_assoc r.sent (line_to c.socket line ∷ []) (lines_left line more),
    )

-- However the threads of the chat have come there, when names of 29 bytes are allowed, and `send`
-- comes back for the clients that the broadcast has not come to: the thread that holds the mutex can
-- go on by itself and gives the mutex back, having sent its line to these clients, in their order,
-- and nothing else.
pub broadcast_ends :
    {config : ChatServerConfig} {r : Room} (takes : ℕ → Bool) (line : Bytes) (i : ℕ)
    → 29 ≤ config.max_name_length
    → Reach config r
    → r.mutex ≡ held line i
    → All (λ c. takes c.socket ≡ true) (drop i r.server.clients)
    → (s : Room) × Moves takes r s
      × (s.mutex ≡ unheld)
      × (s.server ≡ r.server)
      × (s.history ≡ r.history)
      × (s.sent ≡ r.sent ++ lines_left line (drop i r.server.clients))
broadcast_ends {config} {r} takes line i room reach busy all =
    let v = Reach-IsFair room reach in
    let (before, members, split, kept, inside, told) = rw busy at v.told in
    let sender = rw busy at (Reach-HasSender {r = r} reach) in
    let (whole, reached) = take-drop i r.server.clients inside in
    finish takes line (drop i r.server.clients) (take i r.server.clients) r (sym whole)
      (busy ∙ ap (held line) (sym reached)) sender all
