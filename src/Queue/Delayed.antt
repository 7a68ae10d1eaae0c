-- ===== src/Queue/Delayed.antt =====
-- The queue of src/opa_queue.h where the stores of a producer take effect late and in any order: they wait
-- in a buffer, which keeps one store to a place, the latest. The contents of an element, which the
-- program stores before `enqueue`, wait there too. `OPA_write_barrier` lets the producer go on when its
-- buffer is as `Barrier` says; the atomic swap of the tail acts on memory at once and does not wait for
-- the buffer. The consumer is that of Queue.Threads: its stores take effect in order.
pub mod Invariant
pub mod Frames
pub mod Writers
pub mod Stores
pub mod Passes
pub mod Deliveries
pub mod Links
pub mod Consumer
pub mod Simulation
pub mod Order
use open_pa.Base.{ℕ, ◌≡◌, ◌≢◌, ◌==◌, if◌then◌else◌, Option, none, some, List, [], ◌∷◌, ◌++◌, set_at}
use open_pa.Queue.Shape.{NotIn}
use open_pa.Queue.Threads
use open_pa.Queue.Threads.{set_link, resting, testing, loading, held, consume}

-- A producer: outside; before it stores the contents of its element; in `enqueue`, before the store of the
-- null link, at the barrier, before the swap of the tail, and before the store of the link to its element.
pub data Writer : Type 0 where
  outside : Writer
  filling : (elt content : ℕ) → Writer
  clearing_link at_barrier at_swap : (elt : ℕ) → Writer
  at_link : (prev elt : ℕ) → Writer

-- What waits to be stored: to the head, to the link of an element, to the contents of an element.
pub record Buffer : Type 0 where
  pub head : Option ℕ
  pub next : ℕ → Option ℕ
  pub content : ℕ → Option ℕ

abbrev pub IsEmpty : Buffer → Type 0
IsEmpty b = (b.head ≡ none) × ((p : ℕ) → b.next p ≡ none) × ((p : ℕ) → b.content p ≡ none)

abbrev pub empty : Buffer
empty = record { head = none; next = λ p. none; content = λ p. none }

-- The shared memory, with the consumer and the lists of Queue.Threads (whose producers are not used), the
-- contents of the elements, the producers and their buffers; and for the statements, the contents
-- with which each element was last enqueued.
pub record System : Type 0 where
  pub shared : Threads.System
  pub contents : ℕ → ℕ
  pub writers : ℕ → Writer
  pub buffers : ℕ → Buffer
  pub given : ℕ → ℕ

-- The element of a producer that has not passed the barrier.
abbrev pub Has : Writer → ℕ → Type 0
Has (filling elt content) a = elt ≡ a
Has (clearing_link elt) a = elt ≡ a
Has (at_barrier elt) a = elt ≡ a
Has _ a = ⊥

-- The element of a producer that has not stored the link to it.
abbrev pub Holds : Writer → ℕ → Type 0
Holds outside a = ⊥
Holds (filling elt content) a = elt ≡ a
Holds (clearing_link elt) a = elt ≡ a
Holds (at_barrier elt) a = elt ≡ a
Holds (at_swap elt) a = elt ≡ a
Holds (at_link prev elt) a = elt ≡ a

-- No other thread has the element, nor waits to store a link to it.
pub record IsFree (t : System) (a : ℕ) : Type 0 where
  pub not_null : a ≢ 0
  pub not_queued : NotIn a t.shared.queued
  pub not_held : NotIn a (held t.shared.consumer)
  pub no_holder : (j : ℕ) → Holds (t.writers j) a → ⊥
  pub no_head : (j : ℕ) → (t.buffers j).head ≢ some a
  pub no_link : (j p : ℕ) → (t.buffers j).next p ≢ some a

abbrev pub set_writer : System → ℕ → Writer → System
set_writer t i w = record t { writers = set_at t.writers i w }

abbrev pub set_buffer : System → ℕ → Buffer → System
set_buffer t i b = record t { buffers = set_at t.buffers i b }

-- The accesses of `enqueue` of the producer `i`, with the store of the contents before.
unfoldable pub fill : (i elt content : ℕ) → System → System
fill i elt content t =
    set_writer
      (set_buffer t i
        (record (t.buffers i) { content = set_at (t.buffers i).content elt (some content) }))
      i (clearing_link elt)

unfoldable pub clear_link : (i elt : ℕ) → System → System
clear_link i elt t =
    set_writer
      (set_buffer t i (record (t.buffers i) { next = set_at (t.buffers i).next elt (some 0) })) i
      (at_barrier elt)

unfoldable pub swap : (i elt : ℕ) → System → System
swap i elt t = record t {
  writers = set_at t.writers i (at_link t.shared.tail elt);
  shared = record t.shared {
    tail = elt;
    entered = t.shared.entered ++ elt ∷ [];
    queued = t.shared.queued ++ elt ∷ [];
  };
}

unfoldable pub link : (i prev elt : ℕ) → System → System
link i prev elt t =
    if prev == 0
    then set_writer (set_buffer t i (record (t.buffers i) { head = some elt })) i outside
    else set_writer
        (set_buffer t i (record (t.buffers i) { next = set_at (t.buffers i).next prev (some elt) }))
        i outside

-- A store of the producer `i` takes effect.
abbrev pub deliver_head : (i v : ℕ) → System → System
deliver_head i v t = record t {
  shared = record t.shared { head = v };
  buffers = set_at t.buffers i (record (t.buffers i) { head = none });
}

abbrev pub deliver_next : (i p v : ℕ) → System → System
deliver_next i p v t = record t {
  shared = record t.shared { next = set_link t.shared.next p v };
  buffers = set_at t.buffers i (record (t.buffers i) { next = set_at (t.buffers i).next p none });
}

abbrev pub deliver_content : (i p v : ℕ) → System → System
deliver_content i p v t = record t {
  contents = set_link t.contents p v;
  buffers =
      set_at t.buffers i (record (t.buffers i) { content = set_at (t.buffers i).content p none });
}

abbrev pub set_shared : System → Threads.System → System
set_shared t s = record t { shared = s }

-- The accesses of the producers, and the calls; and the stores that take effect.
pub data ProducerStep (Barrier : Buffer → Type 0) : System → System → Type 0 where
  begin_enqueue :
      {t : System} (i a c : ℕ)
      → t.writers i ≡ outside
      → IsFree t a
      → ProducerStep Barrier t
          (record t { writers = set_at t.writers i (filling a c); given = set_link t.given a c })
  filled :
      {t : System} (i a c : ℕ) → t.writers i ≡ filling a c → ProducerStep Barrier t (fill i a c t)
  cleared :
      {t : System} (i a : ℕ)
      → t.writers i ≡ clearing_link a
      → ProducerStep Barrier t (clear_link i a t)
  passed :
      {t : System} (i a : ℕ)
      → t.writers i ≡ at_barrier a
      → Barrier (t.buffers i)
      → ProducerStep Barrier t (set_writer t i (at_swap a))
  swapped : {t : System} (i a : ℕ) → t.writers i ≡ at_swap a → ProducerStep Barrier t (swap i a t)
  linked :
      {t : System} (i p a : ℕ) → t.writers i ≡ at_link p a → ProducerStep Barrier t (link i p a t)
  head_delivered :
      {t : System} (i v : ℕ)
      → (t.buffers i).head ≡ some v
      → ProducerStep Barrier t (deliver_head i v t)
  next_delivered :
      {t : System} (i p v : ℕ)
      → (t.buffers i).next p ≡ some v
      → ProducerStep Barrier t (deliver_next i p v t)
  content_delivered :
      {t : System} (i p v : ℕ)
      → (t.buffers i).content p ≡ some v
      → ProducerStep Barrier t (deliver_content i p v t)

pub data Step (Barrier : Buffer → Type 0) : System → System → Type 0 where
  produced : {t u : System} → ProducerStep Barrier t u → Step Barrier t u
  begin_is_empty :
      {t : System}
      → t.shared.consumer ≡ resting
      → Step Barrier t (
          set_shared t (
            if t.shared.shadow_head == 0
            then record (t.shared) { consumer = testing }
            else t.shared))
  begin_dequeue :
      {t : System}
      → t.shared.consumer ≡ resting
      → t.shared.shadow_head ≢ 0
      → Step Barrier t
          (set_shared t (record (t.shared) { consumer = loading t.shared.shadow_head }))
  consumed : {t : System} → Step Barrier t (set_shared t (consume t.shared))

-- After `init`, with nothing in the buffers.
abbrev pub initial : (next contents : ℕ → ℕ) → System
initial next contents = record {
  shared = Threads.initial next;
  contents = contents;
  writers = λ i. outside;
  buffers = λ i. empty;
  given = contents;
}

pub data Reachable (Barrier : Buffer → Type 0) (next contents : ℕ → ℕ) : System → Type 0 where
  start : Reachable Barrier next contents (initial next contents)
  then :
      {t u : System}
      → Reachable Barrier next contents t
      → Step Barrier t u
      → Reachable Barrier next contents u
