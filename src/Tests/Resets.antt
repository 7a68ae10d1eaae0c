-- ===== src/Tests/Resets.antt =====
-- The consumer's reset of the head is late.
use open_pa.Base.{[], ◌∷◌, ℕ, ◌≡◌, ◌≢◌, Bool, true, false, refl, arith, some}
use open_pa.Queue.Threads
use open_pa.Queue.Threads.{consume, consume_at, swinging, resting, loading}
use open_pa.Queue.Delayed
use open_pa.Queue.Delayed.{
  outside, Buffer, IsEmpty, ProducerStep, fill, clear_link, swap, link, deliver_head, set_shared,
}
use open_pa.Queue.Resets.{set_head, System, Step, Reachable, consume_seen}
use open_pa.Queue.Resets.Order.{as_seen, late_reset-Reachable}
use open_pa.Queue.Resets.Timely.{timely, Reachable-timely}
use open_pa.Tests.Delayed.{first_linked, first_linked-Reaches}

abbrev consumes : System → System
consumes t = record t { memory = set_shared t.memory (consume_seen t.waits t.memory.shared) }

abbrev looking : System → System
looking t = record t {
  memory = set_shared t.memory (record (t.memory.shared) { consumer = Threads.testing });
}

abbrev resets : System → System
resets t = record {
  memory = set_shared t.memory (record (t.memory.shared) { consumer = resting });
  waits = true;
}

abbrev loads : System → System
loads t = record t {
  memory =
      set_shared t.memory
        (record (t.memory.shared) { consumer = loading t.memory.shared.shadow_head });
}

-- One element; the consumer is at the compare-and-swap, and its reset waits.
abbrev linked : System
linked = timely first_linked

abbrev late : System
late = consumes (loads (resets (consumes (consumes (looking linked)))))

late-Reachable : (O : Bool → Type 0) → O false → Reachable IsEmpty O (λ p. 0) (λ p. 7) late
unfolding fill clear_link swap link consume consume_at consume_seen
late-Reachable O o =
    Reachable.then
      (Reachable.then
        (Reachable.then
          (Reachable.then
            (Reachable.then
              (Reachable.then
                (Reachable-timely IsEmpty O o (λ p. 0) (λ p. 7) first_linked first_linked-Reaches)
                (Step.begin_is_empty refl))
              (Step.consumed (λ e. cc) (λ e m. cc)))
            (Step.consumed (λ e. cc) (λ e m. cc)))
          (Step.reset refl))
        (Step.begin_dequeue refl (ground arith)))
      (Step.consumed (λ e. cc) (λ e m. cc))

late_reset-Reachable_example :
    Delayed.Reachable IsEmpty (λ p. 0) (λ p. 7) (as_seen late)
    × (late.waits ≡ true → (i x : ℕ) → (late.memory.buffers i).head ≢ some x)
late_reset-Reachable_example =
    late_reset-Reachable IsEmpty (λ b m. m) (λ d. d ≡ false) (λ d e. e) (λ p. 0) (λ p. 7) late
      (late-Reachable (λ d. d ≡ false) refl)

-- The order matters: with a compare-and-swap that does not wait, the reset overwrites the head that the
-- next producer stores, and its element is lost.
abbrev returned : System
returned = consumes (consumes late)

abbrev enqueued : System
enqueued = record returned { memory = deliver_head 4 32 (link 4 0 32 (swap 4 32 returned.memory)) }

abbrev overwritten : System
overwritten = record {
  memory = set_shared enqueued.memory (set_head enqueued.memory.shared 0);
  waits = false;
}

overwritten-Reachable : Reachable IsEmpty (λ d. Unit) (λ p. 0) (λ p. 7) overwritten
unfolding fill clear_link swap link consume consume_at consume_seen
overwritten-Reachable =
    Reachable.then
      (Reachable.then
        (Reachable.then
          (Reachable.then
            (Reachable.then
              (Reachable.then (late-Reachable (λ d. Unit) tt) (Step.consumed (λ e. cc) (λ e m. tt)))
              (Step.consumed (λ e. cc) (λ e m. tt)))
            (Step.produced true (ProducerStep.swapped 4 32 refl)))
          (Step.produced true (ProducerStep.linked 4 0 32 refl)))
        (Step.produced true (ProducerStep.head_delivered 4 32 refl)))
      (Step.reset_delivered refl)

overwritten-lost :
    (overwritten.memory.shared.queued ≡ 32 ∷ [])
    × (overwritten.memory.shared.head ≡ 0)
    × (overwritten.memory.shared.shadow_head ≡ 0)
    × (overwritten.memory.shared.consumer ≡ resting)
    × (overwritten.memory.writers 4 ≡ outside)
unfolding fill clear_link swap link consume consume_at consume_seen
overwritten-lost = (refl, refl, refl, refl, refl)
