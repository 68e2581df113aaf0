-- ===== src/Queue/Producers.antt =====
-- safe_queue_enqueue looks at `size` before it locks the mutex. Here the test and the part under the
-- mutex are two steps, between which other threads call safe_queue_enqueue and safe_queue_dequeue.
-- A producer that finds the queue full goes into safe_queue_resize: it is not followed further.
pub mod One
pub mod Two
use ntu_computer_network.Base.{ℕ, ◌≡◌, ◌≢◌, List, [], ◌∷◌, ◌++◌, some, ok}
use ntu_computer_network.Queue.{Cell, SafeQueue, create, append, dequeue, takes}

-- The queue; the items whose producers have found room and have not locked the mutex; and, for the
-- theorems, what has been put into the queue, and what calls of safe_queue_dequeue have returned.
pub record Shared : Type 0 where
  pub queue : SafeQueue
  pub tested : List ℕ
  pub put : List Cell
  pub taken : List Cell

abbrev pub untouched : Shared
untouched = record { queue = create; tested = []; put = []; taken = [] }

-- A step of one of the threads.
pub data Step (s : Shared) : Shared → Type 0 where
  tests :
      (item : ℕ)
      → s.queue.size ≢ s.queue.capacity
      → Step s (record s { tested = s.tested ++ item ∷ [] })
  appends :
      {after : SafeQueue} (before rest : List ℕ) (item : ℕ)
      → s.tested ≡ before ++ item ∷ rest
      → append s.queue item ≡ ok after
      → Step s (record s { queue = after; tested = before ++ rest; put = s.put ++ some item ∷ [] })
  removes :
      {after : SafeQueue} (item : Cell)
      → dequeue s.queue ≡ ok (takes item after)
      → Step s (record s { queue = after; taken = s.taken ++ item ∷ [] })

-- Steps of any threads, one after the other.
pub data Steps (s : Shared) : Shared → Type 0 where
  stays : Steps s s
  moves : {t u : Shared} → Steps s t → Step t u → Steps s u

-- With one producer, no other one has tested.
abbrev pub IsAlone : {s t : Shared} → Step s t → Type 0
IsAlone {s} (tests _ _) = s.tested ≡ []
IsAlone (appends _ _ _ _ _) = Unit
IsAlone (removes _ _) = Unit

-- What one producer and any number of consumers reach.
pub data OneReach : Shared → Type 0 where
  starts : OneReach untouched
  goes_on : {s t : Shared} → OneReach s → (step : Step s t) → IsAlone step → OneReach t
