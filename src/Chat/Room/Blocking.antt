-- ===== src/Chat/Room/Blocking.antt =====
-- `send` when a client does not read: a broadcast stops there, with `server_mutex` locked.
use ntu_computer_network.Base.{
  get_elem?-lt, ℕ, zero, suc, ◌≡◌, refl, ap, sym, ◌∙◌, Bool, true, false, some, List, [], ◌∷◌,
  arith, Bytes, get_elem?,
}
use ntu_computer_network.Chat.{ChatClient}
use ntu_computer_network.Chat.Accept.Sockets.{SameSockets, handle_message-SameSockets}
use ntu_computer_network.Chat.Room.{
  held, Room, Step, joins, leaves, renames, composes, locks, sends, unlocks,
}

-- Which steps can be taken, when `send` comes back for the clients of some sockets only: for the
-- others the buffers of the connection are full, since they do not read.
abbrev pub CanMove : (ℕ → Bool) → {r s : Room} → Step r s → Type 0
CanMove takes (joins socket idle fresh run) = Unit
CanMove takes (leaves before rest socket split idle) = Unit
CanMove takes (renames before rest socket received split member fits asks run) = Unit
CanMove takes (composes before rest socket received split fits talks known printed) = Unit
CanMove takes (locks before rest socket line split idle) = Unit
CanMove takes (sends {client} line i busy at) = takes client.socket ≡ true
CanMove takes (unlocks before rest socket line i split busy done) = Unit

-- Steps that can be taken, one after the other.
pub data Moves (takes : ℕ → Bool) : Room → Room → Type 0 where
  stays : {r : Room} → Moves takes r r
  moves : {r s t : Room} (step : Step r s) → CanMove takes step → Moves takes s t → Moves takes r t

SameSockets-at :
    (cs ds : List ChatClient) (i : ℕ) (c : ChatClient)
    → SameSockets cs ds
    → get_elem? cs i ≡ some c
    → (d : ChatClient) × (get_elem? ds i ≡ some d) × (d.socket ≡ c.socket)
SameSockets-at [] ds i c same at = absurd (cc)
SameSockets-at (x ∷ cs) [] i c same at = absurd same
SameSockets-at (x ∷ cs) (y ∷ ds) zero c same at =
    let here : x ≡ c = cc in (y, refl, sym same.0 ∙ ap (λ (z : ChatClient). z.socket) here)
SameSockets-at (x ∷ cs) (y ∷ ds) (suc i) c same at = SameSockets-at cs ds i c same.1 at

held-line : {line text : Bytes} {i j : ℕ} → held line i ≡ held text j → i ≡ j
held-line e = cc

-- A step that can be taken leaves the mutex with a broadcast that is at a client that does not read.
Step-stops :
    (takes : ℕ → Bool) {r s : Room} (line : Bytes) (i : ℕ) (c : ChatClient)
    → r.mutex ≡ held line i
    → get_elem? r.server.clients i ≡ some c
    → takes c.socket ≡ false
    → (step : Step r s) → CanMove takes step
    → (s.mutex ≡ held line i)
      × (s.history ≡ r.history)
      × (d : ChatClient) × (get_elem? s.server.clients i ≡ some d)
      × (d.socket ≡ c.socket)
Step-stops takes line i c busy at full (joins socket idle fresh run) can = absurd (cc)
Step-stops takes line i c busy at full (leaves before rest socket split idle) can = absurd (cc)
Step-stops takes {r} line i c busy at full
      (renames {after} before rest socket received split member fits asks run) can =
    let (d, at', same) =
      SameSockets-at r.server.clients after.clients i c
        (handle_message-SameSockets r.server socket received _ run) at in
    (busy, refl, d, at', same)
Step-stops takes line i c busy at full
      (composes before rest socket received split fits talks known printed) can =
    (busy, refl, c, at, refl)
Step-stops takes line i c busy at full (locks before rest socket text split idle) can = absurd (cc)
Step-stops takes {r} line i c busy at full (sends {client} text j busy' at') can =
    let same : some c ≡ some client =
      sym at ∙ ap (get_elem? r.server.clients) (held-line (sym busy ∙ busy')) ∙ at' in
    let one : c ≡ client = cc in
    absurd (cc (full, can, ap (λ (z : ChatClient). takes z.socket) one))
Step-stops takes {r} line i c busy at full (unlocks before rest socket text j split busy' done)
      can =
    absurd (omega (arith, held-line (sym busy ∙ busy'), done, get_elem?-lt r.server.clients i at))

-- A broadcast is at a client for which `send` does not come back, since that client does not read:
-- whatever the threads do from there on, the mutex is not given back and no other broadcast begins.
pub broadcast_stops :
    (takes : ℕ → Bool) {r s : Room} (line : Bytes) (i : ℕ) (c : ChatClient)
    → r.mutex ≡ held line i
    → get_elem? r.server.clients i ≡ some c
    → takes c.socket ≡ false
    → Moves takes r s
    → (s.mutex ≡ held line i) × (s.history ≡ r.history)
broadcast_stops takes line i c busy at full stays = (busy, refl)
broadcast_stops takes line i c busy at full (moves step can more) =
    let (still, told, d, at', same) = Step-stops takes line i c busy at full step can in
    let (end, kept) = broadcast_stops takes line i d still at' (ap takes same ∙ full) more in
    (end, kept ∙ told)
