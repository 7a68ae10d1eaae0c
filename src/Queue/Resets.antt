-- ===== src/Queue/Resets.antt =====
-- The queue of src/opa_queue.h where the consumer's reset of the head, in `is_empty`, takes effect late as
-- well. Until then the consumer itself reads the head as null, and the head in memory may be stored to by
-- a producer. `Orders` says when the compare-and-swap of the tail in `dequeue` can go on. The producers
-- are those of Queue.Delayed.
pub mod Ahead
pub mod Order
pub mod Timely
use open_pa.Base.{ℕ, ◌≡◌, ◌≢◌, ◌==◌, if◌then◌else◌, Bool, true, false}
use open_pa.Queue.Threads
use open_pa.Queue.Threads.{resting, testing, resetting, loading, swinging, consume}
use open_pa.Queue.Delayed
use open_pa.Queue.Delayed.{Buffer, ProducerStep, set_shared}

-- The memory and the threads, and whether a reset of the head waits.
pub record System : Type 0 where
  pub memory : Delayed.System
  pub waits : Bool

abbrev pub set_head : Threads.System → ℕ → Threads.System
set_head s h = record s { head = h }

-- The head as the consumer reads it.
abbrev pub seen : Bool → Threads.System → Threads.System
seen waits s = set_head s (if waits then 0 else s.head)

-- An access of the consumer other than the reset; it reads the head through its own reset.
unfoldable pub consume_seen : Bool → Threads.System → Threads.System
consume_seen waits s = set_head (consume (seen waits s)) s.head

pub data Step (Barrier : Buffer → Type 0) (Orders : Bool → Type 0) : System → System → Type 0 where
  produced :
      {t u : Delayed.System} (waits : Bool)
      → ProducerStep Barrier t u
      → Step Barrier Orders
          (record { memory = t; waits = waits })
          (record { memory = u; waits = waits })
  begin_is_empty :
      {t : System}
      → t.memory.shared.consumer ≡ resting
      → Step Barrier Orders t (record t {
        memory = set_shared t.memory (
            if t.memory.shared.shadow_head == 0
            then record (t.memory.shared) { consumer = testing }
            else t.memory.shared);
      })
  begin_dequeue :
      {t : System}
      → t.memory.shared.consumer ≡ resting
      → t.memory.shared.shadow_head ≢ 0
      → Step Barrier Orders t (record t {
        memory =
            set_shared t.memory
              (record (t.memory.shared) { consumer = loading t.memory.shared.shadow_head });
      })
  reset :
      {t : System}
      → t.memory.shared.consumer ≡ resetting
      → Step Barrier Orders t (record {
        memory = set_shared t.memory (record (t.memory.shared) { consumer = resting });
        waits = true;
      })
  consumed :
      {t : System}
      → t.memory.shared.consumer ≢ resetting
      → ((e : ℕ) → t.memory.shared.consumer ≡ swinging e → Orders t.waits)
      → Step Barrier Orders t
          (record t { memory = set_shared t.memory (consume_seen t.waits t.memory.shared) })
  reset_delivered :
      {t : System}
      → t.waits ≡ true
      → Step Barrier Orders t
          (record { memory = set_shared t.memory (set_head t.memory.shared 0); waits = false })

abbrev pub initial : (next contents : ℕ → ℕ) → System
initial next contents = record { memory = Delayed.initial next contents; waits = false }

pub data Reachable (Barrier : Buffer → Type 0) (Orders : Bool → Type 0) (next contents : ℕ → ℕ)
    : System → Type 0 where
  start : Reachable Barrier Orders next contents (initial next contents)
  then :
      {t u : System}
      → Reachable Barrier Orders next contents t
      → Step Barrier Orders t u
      → Reachable Barrier Orders next contents u
