-- ===== src/Queue/Resets/Timely.antt =====
-- Every run of Queue.Delayed is one in which each reset of the head takes effect before the next step.
use open_pa.Base.{ℕ, ◌≡◌, ◌≢◌, Bool, false, refl, inl, inr, ap, sym, subst, ◌⊎◌}
use open_pa.Queue.Threads.{Consumer, resetting, consume, consume_at}
use open_pa.Queue.Delayed
use open_pa.Queue.Delayed.{Buffer, set_shared}
use open_pa.Queue.Resets.{System, Step, Reachable, start, consume_seen}
use open_pa.Queue.Resets.Ahead.{seen-consume_seen}

is_resetting : (c : Consumer) → (c ≡ resetting) ⊎ (c ≢ resetting)
is_resetting Consumer.resetting = inl refl
is_resetting Consumer.resting = inr λ e. cc
is_resetting Consumer.testing = inr λ e. cc
is_resetting Consumer.copying = inr λ e. cc
is_resetting (Consumer.loading x) = inr λ e. cc
is_resetting (Consumer.swinging x) = inr λ e. cc
is_resetting (Consumer.waiting x) = inr λ e. cc
is_resetting (Consumer.copying_next x) = inr λ e. cc
is_resetting (Consumer.ending x) = inr λ e. cc

abbrev pub timely : Delayed.System → System
timely t = record { memory = t; waits = false }

module _ (B : Buffer → Type 0) (O : Bool → Type 0) (o : O false) (next contents : ℕ → ℕ) where
  consumed_timely :
      (t : Delayed.System)
      → Reachable B O next contents (timely t)
      → Reachable B O next contents (timely (set_shared t (consume t.shared)))
  unfolding consume consume_at consume_seen
  consumed_timely t r = elim (is_resetting t.shared.consumer) [
    | inl e ↦
        subst (λ s. Reachable B O next contents (timely (set_shared t s)))
          (sym (ap (λ c. consume_at c t.shared) e))
          (Reachable.then (Reachable.then r (Step.reset e)) (Step.reset_delivered refl))
    | inr n ↦
        subst (λ s. Reachable B O next contents (timely (set_shared t s)))
          (seen-consume_seen false t.shared n) (Reachable.then r (Step.consumed n (λ e _. o)))
  ]

  pub Reachable-timely :
      (t : Delayed.System)
      → Delayed.Reachable B next contents t
      → Reachable B O next contents (timely t)
  Reachable-timely t Delayed.Reachable.start = start
  Reachable-timely t (Delayed.Reachable.then r (Delayed.Step.produced e)) =
      Reachable.then (Reachable-timely _ r) (Step.produced false e)
  Reachable-timely t (Delayed.Reachable.then r (Delayed.Step.begin_is_empty e)) =
      Reachable.then (Reachable-timely _ r) (Step.begin_is_empty e)
  Reachable-timely t (Delayed.Reachable.then r (Delayed.Step.begin_dequeue e z)) =
      Reachable.then (Reachable-timely _ r) (Step.begin_dequeue e z)
  Reachable-timely t (Delayed.Reachable.then {t = p} r Delayed.Step.consumed) =
      consumed_timely p (Reachable-timely p r)
