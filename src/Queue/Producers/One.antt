-- ===== src/Queue/Producers/One.antt =====
-- One producer: the test without the mutex does no harm.
use ntu_computer_network.Base.{
  ℕ, ◌+◌, ◌≤◌, ◌<◌, ◌≡◌, sym, ap, ◌∙◌, List, [], ◌∷◌, ◌++◌, length, append_assoc, length-append,
  some, ok, arith,
}
use ntu_computer_network.Queue.{Cell, SafeQueue, create, append, dequeue, takes}
use ntu_computer_network.Queue.Ring.{IsValid, contents, length-slots}
use ntu_computer_network.Queue.Returned.{append-Leaves, dequeue-takes}
use ntu_computer_network.Queue.History.{create-Holds}
use ntu_computer_network.Queue.Producers.{
  Shared, untouched, Step, tests, appends, removes, IsAlone, OneReach, starts, goes_on,
}

-- The items that wait follow those that were taken, and a producer behind its test finds room.
record IsSound (s : Shared) : Type 0 where
  valid : IsValid s.queue
  flow : s.put ≡ s.taken ++ contents s.queue
  room : s.queue.size + length s.tested ≤ s.queue.capacity

size-contents : (q : SafeQueue) → length (contents q) ≡ q.size
size-contents q = length-slots q.cells q.capacity q.front q.size

appends-IsSound :
    {s : Shared} {after : SafeQueue} (before rest : List ℕ) (item : ℕ)
    → s.tested ≡ before ++ item ∷ rest
    → append s.queue item ≡ ok after
    → IsSound s
    → IsSound (record s { queue = after; tested = before ++ rest; put = s.put ++ some item ∷ [] })
appends-IsSound {s} {after} before rest item split run v =
    let more : length s.tested ≡ length (before ++ rest) + 1 =
      omega
        (arith, ap length split, length-append before (item ∷ rest), length-append before rest) in
    let fits : s.queue.size < s.queue.capacity = omega (arith, v.room) in
    let (w, held, cap) = append-Leaves item v.valid fits run in
    let one : after.size ≡ s.queue.size + 1 = omega (
      arith,
      size-contents after,
      ap length held,
      length-append (contents s.queue) (some item ∷ []),
      size-contents s.queue,
    ) in
    record {
      valid = w;
      flow =
          ap (λ l. l ++ some item ∷ []) v.flow
          ∙ append_assoc s.taken (contents s.queue) (some item ∷ [])
          ∙ ap (λ l. s.taken ++ l) (sym held);
      room = omega (arith, v.room, cap, one, more);
    }

removes-IsSound :
    {s : Shared} {after : SafeQueue} (item : Cell)
    → dequeue s.queue ≡ ok (takes item after)
    → IsSound s
    → IsSound (record s { queue = after; taken = s.taken ++ item ∷ [] })
removes-IsSound {s} {after} item run v =
    let (held, w, cap) = dequeue-takes v.valid run in
    let one : s.queue.size ≡ after.size + 1 =
      omega (arith, size-contents after, ap length held, size-contents s.queue) in
    record {
      valid = w;
      flow =
          v.flow
          ∙ ap (λ l. s.taken ++ l) held
          ∙ sym (append_assoc s.taken (item ∷ []) (contents after));
      room = omega (arith, v.room, cap, one);
    }

Step-IsSound : {s t : Shared} (step : Step s t) → IsAlone step → IsSound s → IsSound t
Step-IsSound {s} (tests item free) alone v = record {
  valid = v.valid;
  flow = v.flow;
  room = omega (arith, v.valid.size_in, free, ap length alone, length-append s.tested (item ∷ []));
}
Step-IsSound (appends before rest item split run) alone v =
    appends-IsSound before rest item split run v
Step-IsSound (removes item run) alone v = removes-IsSound item run v

untouched-IsSound : IsSound untouched
unfolding create
untouched-IsSound = record {
  valid = create-Holds.valid;
  flow = sym create-Holds.items;
  room = omega arith;
}

OneReach-IsSound : {s : Shared} → OneReach s → IsSound s
OneReach-IsSound starts = untouched-IsSound
OneReach-IsSound (goes_on before step alone) = Step-IsSound step alone (OneReach-IsSound before)

-- One producer and any number of consumers on a fresh queue, whatever the consumers do between the
-- test of the size and the locking: as long as every test finds room and every call returns, the
-- items put are, in order, those that were taken and those that wait, and the item behind the test
-- still has its room.
pub one_producer_fifo :
    {s : Shared}
    → OneReach s
    → (s.put ≡ s.taken ++ contents s.queue) × (s.queue.size + length s.tested ≤ s.queue.capacity)
one_producer_fifo reach = let v = OneReach-IsSound reach in (v.flow, v.room)
