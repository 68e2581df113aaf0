-- ===== src/Chat/Room/Order.antt =====
-- All clients hear the broadcasts of the chat in one order.
use ntu_computer_network.Base.{
  ℕ, suc, ◌≡◌, ◌≤◌, refl, sym, ◌∙◌, some, List, [], ◌∷◌, ◌++◌, append-nil, arith, Bytes, length,
  take, get_elem?, map,
}
use ntu_computer_network.Chat.Accept.Sockets.{handle_message-SameSockets}
use ntu_computer_network.Chat.{ChatClient, ChatServerConfig, Send, init_chat_server}
use ntu_computer_network.Chat.Leaving.{remove_chat_client-IsValid}
use ntu_computer_network.Chat.Members.{has_socket, IsDistinct, IsValid, add_chat_client-IsValid}
use ntu_computer_network.Chat.Reach.{handle_message-Keeps, init-IsValid}
use ntu_computer_network.Chat.Accept.Sockets.{SameSockets, SameSockets-refl, has_socket-SameSockets}
use ntu_computer_network.Chat.Room.Lines.{
  line_if, answers_unheard, heard-append, SameSockets-take, SameSockets-trans, length-SameSockets,
  take-length, sends-lines_to, get_elem?-lt,
}
use ntu_computer_network.Chat.Room.{
  Mutex, unheld, held, Sent, line_to, answer, Broadcast, Room, empty_room, Step, joins, leaves,
  renames, composes, locks, sends, unlocks, Reach, opens, goes_on, lines_to, heard,
}

-- What the mutex says of the calls so far: the broadcasts before are done, and the one that is going
-- on has come to the clients up to the index.
abbrev pub Heard : Mutex → List ChatClient → List Sent → List Broadcast → Type 0
Heard unheld clients sent history = (s : ℕ) → lines_to s sent ≡ heard s history
Heard (held line i) clients sent history =
    (before : List Broadcast) × (members : List ChatClient) × (history
      ≡ before ++ (record { line = line; members = members }) ∷ [])
    × SameSockets members clients
    × (i ≤ length clients)
    × ((s : ℕ) → lines_to s sent ≡ heard s before ++ line_if (has_socket s (take i clients)) line)

pub record IsFair (r : Room) : Type 0 where
  pub valid : IsValid r.server
  pub told : Heard r.mutex r.server.clients r.sent r.history

-- The answers to one client change nothing in what the mutex says, nor does a new name.
renames-Heard :
    (mutex : Mutex) (cs ds : List ChatClient) (sent : List Sent) (history : List Broadcast)
    (calls : List Send)
    → SameSockets cs ds
    → Heard mutex cs sent history
    → Heard mutex ds (sent ++ map answer calls) history
renames-Heard unheld cs ds sent history calls same told = λ s. answers_unheard s sent calls ∙ told s
renames-Heard (held line i) cs ds sent history calls same
      (before, members, split, kept, inside, told) =
    (
      before,
      members,
      split,
      SameSockets-trans members cs ds kept same,
      omega (arith, length-SameSockets cs ds same),
      λ s.
          answers_unheard s sent calls
          ∙ told s
          ∙ rw (has_socket-SameSockets s (take i cs) (take i ds) (SameSockets-take i cs ds same))
              refl,
    )

heard_more :
    (s : ℕ) (history : List Broadcast) (line : Bytes) (members : List ChatClient)
    → heard s (history ++ (record { line = line; members = members }) ∷ [])
      ≡ heard s history ++ line_if (has_socket s members) line
unfolding heard
heard_more s history line members = heard-append s history _

locks-Heard :
    (line : Bytes) (cs : List ChatClient) (sent : List Sent) (history : List Broadcast)
    → Heard unheld cs sent history
    → Heard (held line 0) cs sent (history ++ (record { line = line; members = cs }) ∷ [])
locks-Heard line cs sent history told = (
  history,
  cs,
  refl,
  SameSockets-refl cs,
  omega arith,
  λ s. told s ∙ sym (append-nil (heard s history)),
)

sends-next :
    (line : Bytes) (i : ℕ) (cs : List ChatClient) (sent : List Sent) (history : List Broadcast)
    {c : ChatClient}
    → IsDistinct cs
    → get_elem? cs i ≡ some c
    → Heard (held line i) cs sent history
    → Heard (held line (suc i)) cs (sent ++ line_to c.socket line ∷ []) history
sends-next line i cs sent history v at (before, members, split, kept, inside, told) = (
  before,
  members,
  split,
  kept,
  get_elem?-lt i cs at,
  λ s. sends-lines_to s i line sent (heard s before) cs v at (told s),
)

unlocks-Heard :
    (line : Bytes) (cs : List ChatClient) (sent : List Sent) (history : List Broadcast)
    → Heard (held line (length cs)) cs sent history
    → Heard unheld cs sent history
unlocks-Heard line cs sent history (before, members, split, kept, inside, told) = λ s.
    told s
    ∙ rw
        (
          take-length cs,
          split,
          heard_more s before line members,
          has_socket-SameSockets s members cs kept,
        )
        refl

Step-IsFair : {r t : Room} → IsFair r → Step r t → IsFair t
Step-IsFair {r} v (joins {after} socket idle fresh run) =
    let (after', run', clients, config, valid) = add_chat_client-IsValid socket v.valid fresh in
    let same : after' ≡ after = cc in
    record { valid = rw same at valid; told = rw idle (rw idle at v.told) }
Step-IsFair {r} v (leaves before rest socket split idle) = record {
  valid = (remove_chat_client-IsValid socket v.valid).0;
  told = rw idle (rw idle at v.told);
}
Step-IsFair {r} v
      (renames {after} {asked} {calls} before rest socket received split member fits asks run) =
    let same = handle_message-SameSockets r.server socket received calls run in
    record {
      valid = (handle_message-Keeps socket received calls v.valid run).valid;
      told =
          renames-Heard r.mutex r.server.clients after.clients r.sent r.history calls same v.told;
    }
Step-IsFair {r} v (composes before rest socket received split fits talks known printed) = record {
  valid = v.valid;
  told = v.told;
}
Step-IsFair {r} v (locks before rest socket line split idle) = record {
  valid = v.valid;
  told = locks-Heard line r.server.clients r.sent r.history (rw idle at v.told);
}
Step-IsFair {r} v (sends line i busy at) = record {
  valid = v.valid;
  told =
      sends-next line i r.server.clients r.sent r.history v.valid.distinct at (rw busy at v.told);
}
Step-IsFair {r} v (unlocks before rest socket line i split busy done) = record {
  valid = v.valid;
  told = unlocks-Heard line r.server.clients r.sent r.history (rw (busy, done) at v.told);
}

empty_room-IsFair :
    (config : ChatServerConfig) → 29 ≤ config.max_name_length → IsFair (empty_room config)
unfolding empty_room init_chat_server lines_to heard
empty_room-IsFair config room = record { valid = init-IsValid config room; told = λ s. refl }

pub Reach-IsFair :
    {config : ChatServerConfig} {r : Room} → 29 ≤ config.max_name_length → Reach config r → IsFair r
Reach-IsFair {config} room opens = empty_room-IsFair config room
Reach-IsFair room (goes_on before step) = Step-IsFair (Reach-IsFair room before) step

-- However the threads of the chat interleave, from its start on, when names of 29 bytes are allowed:
-- whenever nobody holds the mutex, each socket has been sent the lines of exactly the broadcasts at
-- which a client had it, once each, in the order in which the mutex was locked for them.
pub broadcasts_ordered :
    {config : ChatServerConfig} {r : Room}
    → 29 ≤ config.max_name_length
    → Reach config r
    → r.mutex ≡ unheld
    → (s : ℕ) → lines_to s r.sent ≡ heard s r.history
broadcasts_ordered room reach idle = let v = Reach-IsFair room reach in rw idle at v.told
