-- ===== src/Queue/Threads.antt =====
-- The queue of src/opa_queue.h with any number of producers and one consumer in other threads: each
-- access to shared memory is a step. Memory is addressed by the offset in the segment, which is
-- the same for all processes, as a relative address is. The barriers and the pause of the busy wait
-- are no accesses.
pub mod Invariant
pub mod Owners
pub mod Producers
pub mod Order
pub mod Consumers
pub mod Takes
pub mod Swap
pub mod Peek
pub mod Solo
pub mod SoloConsumer
use open_pa.Base.{ℕ, ◌≡◌, ◌≢◌, ◌==◌, if◌then◌else◌, Bool, List, [], ◌∷◌, ◌++◌}
use open_pa.Queue.Shape.{NotIn}

-- A producer: in `enqueue`, before the reset of the element's link, before the swap of the tail, and
-- between the swap, which gave `prev`, and the store of the link to `elt`.
pub data Producer : Type 0 where
  idle : Producer
  clearing swapping : (elt : ℕ) → Producer
  linking : (prev elt : ℕ) → Producer

-- The consumer: in `is_empty`, before the test of the head, before it is copied, before its reset;
-- in `dequeue`, before the load of the link, before the compare-and-swap of the tail, in the busy
-- wait, before the second load of the link, and before its reset.
pub data Consumer : Type 0 where
  resting testing copying resetting : Consumer
  loading swinging waiting copying_next ending : (e : ℕ) → Consumer

-- The shared memory, the threads, and for the statements: the elements in the order of the swaps of
-- the tail, those returned by `dequeue`, and those in the queue. An element leaves the queue when
-- `dequeue` moves the shadow head past it, or takes it off the tail.
pub record System : Type 0 where
  pub head : ℕ
  pub tail : ℕ
  pub shadow_head : ℕ
  pub next : ℕ → ℕ
  pub producers : ℕ → Producer
  pub consumer : Consumer
  pub entered : List ℕ
  pub returned : List ℕ
  pub queued : List ℕ

abbrev pub set_link : (ℕ → ℕ) → ℕ → ℕ → ℕ → ℕ
set_link n p v q = if p == q then v else n q

abbrev pub set_producer : (ℕ → Producer) → ℕ → Producer → ℕ → Producer
set_producer ps i p j = if i == j then p else ps j

abbrev pub behind_first : List ℕ → List ℕ
behind_first [] = []
behind_first (r ∷ rs) = rs

-- The next access of producer `i`, where it stands in `enqueue`.
unfoldable pub produce_at : Producer → ℕ → System → System
produce_at idle i s = s
produce_at (clearing elt) i s = record s {
  next = set_link s.next elt 0;
  producers = set_producer s.producers i (swapping elt);
}
produce_at (swapping elt) i s = record s {
  tail = elt;
  producers = set_producer s.producers i (linking s.tail elt);
  entered = s.entered ++ elt ∷ [];
  queued = s.queued ++ elt ∷ [];
}
produce_at (linking prev elt) i s =
    if prev == 0
    then record s { head = elt; producers = set_producer s.producers i idle }
    else record s { next = set_link s.next prev elt; producers = set_producer s.producers i idle }

unfoldable pub produce : ℕ → System → System
unfolding produce_at
produce i s = produce_at (s.producers i) i s

-- The next access of the consumer. The shadow head is its own: it is set with the access before.
unfoldable pub consume_at : Consumer → System → System
consume_at resting s = s
consume_at testing s =
    if s.head == 0 then record s { consumer = resting } else record s { consumer = copying }
consume_at copying s = record s { shadow_head = s.head; consumer = resetting }
consume_at resetting s = record s { head = 0; consumer = resting }
consume_at (loading e) s =
    if s.next e == 0
    then record s { shadow_head = 0; consumer = swinging e }
    else record s { consumer = copying_next e }
consume_at (swinging e) s =
    if s.tail == e
    then record s { tail = 0; consumer = ending e; queued = behind_first s.queued }
    else record s { consumer = waiting e }
consume_at (waiting e) s = if s.next e == 0 then s else record s { consumer = copying_next e }
consume_at (copying_next e) s = record s {
  shadow_head = s.next e;
  consumer = ending e;
  queued = behind_first s.queued;
}
consume_at (ending e) s = record s {
  next = set_link s.next e 0;
  consumer = resting;
  returned = s.returned ++ e ∷ [];
}

unfoldable pub consume : System → System
unfolding consume_at
consume s = consume_at s.consumer s

-- What `peek_head` gives the consumer, from the shadow head, which is its own: an offset, or null.
unfoldable pub peek_head : System → ℕ
peek_head s = if s.shadow_head == 0 then 0 else s.shadow_head

-- `e` is the element that the consumer is about to return.
abbrev pub held : Consumer → List ℕ
held (ending e) = e ∷ []
held _ = []

-- `a` is the element of the producer.
abbrev pub Owns : Producer → ℕ → Type 0
Owns idle a = ⊥
Owns (clearing elt) a = elt ≡ a
Owns (swapping elt) a = elt ≡ a
Owns (linking prev elt) a = elt ≡ a

-- A thread begins a call, or makes its next access. An element is enqueued only while it is not in the
-- queue and in no other thread's hands; `dequeue` is called only after `is_empty` has answered 0,
-- which leaves the shadow head not null.
pub data Step : System → System → Type 0 where
  begin_enqueue :
      {s : System} (i a : ℕ)
      → s.producers i ≡ idle
      → a ≢ 0
      → NotIn a s.queued
      → NotIn a (held s.consumer)
      → ((j : ℕ) → Owns (s.producers j) a → ⊥)
      → Step s (record s { producers = set_producer s.producers i (clearing a) })
  begin_is_empty :
      {s : System}
      → s.consumer ≡ resting
      → Step s (if s.shadow_head == 0 then record s { consumer = testing } else s)
  call_peek_head : {s : System} → s.consumer ≡ resting → Step s s
  begin_dequeue :
      {s : System}
      → s.consumer ≡ resting
      → s.shadow_head ≢ 0
      → Step s (record s { consumer = loading s.shadow_head })
  producer : {s : System} (i : ℕ) → Step s (produce i s)
  consumer : {s : System} → Step s (consume s)

-- After `init`.
abbrev pub initial : (ℕ → ℕ) → System
initial next = record {
  head = 0;
  tail = 0;
  shadow_head = 0;
  next = next;
  producers = λ i. idle;
  consumer = resting;
  entered = [];
  returned = [];
  queued = [];
}

pub data Reachable (next : ℕ → ℕ) : System → Type 0 where
  start : Reachable next (initial next)
  then : {s s' : System} → Reachable next s → Step s s' → Reachable next s'
