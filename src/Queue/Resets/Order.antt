-- ===== src/Queue/Resets/Order.antt =====
-- A reset of the head that is late is as good as one in time, if the compare-and-swap waits for it.
use open_pa.Base.{
  ap, ==-eq, sym, some, subst, Bool-cases, ℕ, ◌≡◌, ◌≢◌, ◌==◌, if◌then◌else◌, Bool, true, false,
  refl, inl, inr,
}
use open_pa.Queue.Threads.{resting, testing, resetting, swinging, consume, consume_at}
use open_pa.Queue.Threads.Order.{Reachable-Inv}
use open_pa.Queue.Delayed
use open_pa.Queue.Delayed.{
  Buffer, IsEmpty, IsFree, ProducerStep, set_shared, fill, clear_link, swap, link,
}
use open_pa.Queue.Delayed.Simulation.{Reachable-Simulated}
use open_pa.Queue.Resets.Ahead.{seen-consume_seen, still-Ahead, no_head, Ahead, resetting_ahead}
use open_pa.Queue.Resets.{System, Step, Reachable, start, seen, set_head, consume_seen}

-- The queue as its consumer sees it: a reset of the head that waits has taken effect.
abbrev pub as_seen : System → Delayed.System
as_seen t = set_shared t.memory (seen t.waits t.memory.shared)

abbrev nulled : Delayed.System → Delayed.System
nulled t = set_shared t (set_head t.shared 0)

nulled-IsFree : (t : Delayed.System) (a : ℕ) → IsFree t a → IsFree (nulled t) a
nulled-IsFree t a f = record {
  not_null = f.not_null;
  not_queued = f.not_queued;
  not_held = f.not_held;
  no_holder = f.no_holder;
  no_head = f.no_head;
  no_link = f.no_link;
}

nulled-link : (t : Delayed.System) (i p a : ℕ) → link i p a (nulled t) ≡ nulled (link i p a t)
unfolding link
nulled-link t i p a = elim (Bool-cases (p == 0)) [ inl e ↦ rw e refl | inr e ↦ rw e refl ]

-- The producers do not see the head, and do not store to it.
nulled-ProducerStep :
    (B : Buffer → Type 0) (t u : Delayed.System)
    → ((i x : ℕ) → (t.buffers i).head ≢ some x)
    → ProducerStep B t u
    → ProducerStep B (nulled t) (nulled u)
unfolding fill clear_link swap
nulled-ProducerStep B t u n (ProducerStep.begin_enqueue i a c e f) =
    ProducerStep.begin_enqueue i a c e (nulled-IsFree t a f)
nulled-ProducerStep B t u n (ProducerStep.filled i a c e) = ProducerStep.filled i a c e
nulled-ProducerStep B t u n (ProducerStep.cleared i a e) = ProducerStep.cleared i a e
nulled-ProducerStep B t u n (ProducerStep.passed i a e b) = ProducerStep.passed i a e b
nulled-ProducerStep B t u n (ProducerStep.swapped i a e) = ProducerStep.swapped i a e
nulled-ProducerStep B t u n (ProducerStep.linked i p a e) =
    subst (ProducerStep B (nulled t)) (nulled-link t i p a) (ProducerStep.linked i p a e)
nulled-ProducerStep B t u n (ProducerStep.head_delivered i x e) = absurd (n i x e)
nulled-ProducerStep B t u n (ProducerStep.next_delivered i p x e) =
    ProducerStep.next_delivered i p x e
nulled-ProducerStep B t u n (ProducerStep.content_delivered i p x e) =
    ProducerStep.content_delivered i p x e

-- Nor do they store to what is the consumer's.
produced-kept :
    (B : Buffer → Type 0) (t u : Delayed.System)
    → ProducerStep B t u
    → Ahead t.shared
    → Ahead u.shared
unfolding fill clear_link swap link
produced-kept B t u (ProducerStep.begin_enqueue i a c e f) k = k
produced-kept B t u (ProducerStep.filled i a c e) k = k
produced-kept B t u (ProducerStep.cleared i a e) k = k
produced-kept B t u (ProducerStep.passed i a e b) k = k
produced-kept B t u (ProducerStep.swapped i a e) k = k
produced-kept B t u (ProducerStep.linked i p a e) k = elim (Bool-cases (p == 0)) [
  | inl b ↦ rw b k
  | inr b ↦ rw b k
]
produced-kept B t u (ProducerStep.head_delivered i x e) k = k
produced-kept B t u (ProducerStep.next_delivered i p x e) k = k
produced-kept B t u (ProducerStep.content_delivered i p x e) k = k

module _ (B : Buffer → Type 0) (drains : (b : Buffer) → B b → IsEmpty b) (O : Bool → Type 0)
    (orders : (d : Bool) → O d → d ≡ false) (next contents : ℕ → ℕ) where
  -- What holds between the steps.
  abbrev Good : System → Type 0
  Good t = Delayed.Reachable B next contents (as_seen t) × (t.waits ≡ true → Ahead t.memory.shared)

  module _ (t : Delayed.System) (r : Delayed.Reachable B next contents t) where
    reached-still :
        Ahead t.shared → ((e : ℕ) → t.shared.consumer ≢ swinging e) → Ahead (consume t.shared)
    reached-still =
        let (s, k, h) = Reachable-Simulated B drains next contents t r in
        still-Ahead t s (Reachable-Inv next s k) h

    reached-no_head : Ahead t.shared → (i x : ℕ) → (t.buffers i).head ≢ some x
    reached-no_head =
        let (s, k, h) = Reachable-Simulated B drains next contents t r in
        no_head t s (Reachable-Inv next s k) h

    reached-resetting : t.shared.consumer ≡ resetting → t.shared.shadow_head ≢ 0
    reached-resetting =
        let (s, k, h) = Reachable-Simulated B drains next contents t r in
        resetting_ahead t s (Reachable-Inv next s k) h

  produced-Good :
      (t u : Delayed.System) (d : Bool)
      → ProducerStep B t u
      → Good (record { memory = t; waits = d })
      → Good (record { memory = u; waits = d })
  produced-Good t u true e (r, k) = (
    Delayed.Reachable.then r (
        Delayed.Step.produced
          (nulled-ProducerStep B t u (reached-no_head (nulled t) r (k refl)) e)),
    λ w. produced-kept B t u e (k w),
  )
  produced-Good t u false e (r, k) = (Delayed.Reachable.then r (Delayed.Step.produced e), λ w. cc)

  consumed-Good :
      (t : Delayed.System) (d : Bool)
      → t.shared.consumer ≢ resetting
      → ((e : ℕ) → t.shared.consumer ≡ swinging e → O d)
      → Good (record { memory = t; waits = d })
      → Good (record { memory = set_shared t (consume_seen d t.shared); waits = d })
  unfolding consume_seen
  consumed-Good t d n o (r, k) = (
    subst (λ s. Delayed.Reachable B next contents (set_shared t s))
        (sym (seen-consume_seen d t.shared n)) (Delayed.Reachable.then r Delayed.Step.consumed),
    λ w. reached-still _ r (k w) (λ e m. let f = orders d (o e m) in cc),
  )

  begin_is_empty-Good :
      (t : System)
      → t.memory.shared.consumer ≡ resting
      → Good t
      → Good (record t {
        memory = set_shared t.memory (
            if t.memory.shared.shadow_head == 0
            then record (t.memory.shared) { consumer = testing }
            else t.memory.shared);
      })
  begin_is_empty-Good t e (r, k) = elim (Bool-cases (t.memory.shared.shadow_head == 0)) [
    | inl b ↦ rw b (
      subst
          (λ b. Delayed.Reachable B next contents (
            set_shared t.memory (
              if b
              then record (seen t.waits t.memory.shared) { consumer = testing }
              else seen t.waits t.memory.shared)))
          b (Delayed.Reachable.then r (Delayed.Step.begin_is_empty e)),
      λ w. elim (k w) [ inl z ↦ absurd (z (==-eq _ 0 b)) | inr (_, m) ↦ cc ],
    )
    | inr b ↦ rw b (r, k)
  ]

  reset-Good :
      (t : System)
      → t.memory.shared.consumer ≡ resetting
      → Good t
      → Good (record {
        memory = set_shared t.memory (record (t.memory.shared) { consumer = resting });
        waits = true;
      })
  unfolding consume consume_at
  reset-Good t e (r, k) = (
    subst (λ s. Delayed.Reachable B next contents (set_shared t.memory s))
        (ap (λ c. consume_at c (seen t.waits t.memory.shared)) e)
        (Delayed.Reachable.then r Delayed.Step.consumed),
    λ w. inl (reached-resetting (as_seen t) r e),
  )

  Step-Good : (t u : System) → Step B O t u → Good t → Good u
  Step-Good t u (Step.produced d e) g = produced-Good _ _ d e g
  Step-Good t u (Step.begin_is_empty e) g = begin_is_empty-Good t e g
  Step-Good t u (Step.begin_dequeue e z) (r, k) =
      (Delayed.Reachable.then r (Delayed.Step.begin_dequeue e z), λ w. inl z)
  Step-Good t u (Step.reset e) g = reset-Good t e g
  Step-Good t u (Step.consumed n o) g = consumed-Good t.memory t.waits n o g
  Step-Good t u (Step.reset_delivered e) (r, k) = (
    subst (λ d. Delayed.Reachable B next contents (set_shared t.memory (seen d t.memory.shared))) e
        r,
    λ w. cc,
  )

  Reachable-Good : (t : System) → Reachable B O next contents t → Good t
  Reachable-Good t start = (Delayed.Reachable.start, λ w. cc)
  Reachable-Good t (Reachable.then {t = p} r e) = Step-Good p t e (Reachable-Good p r)

  -- In every state that producers with delayed stores and one consumer, whose reset of the head is
  -- delayed, reach from an initialised queue, where the write barrier lets a producer go on only when none
  -- of its stores waits, and the compare-and-swap of the tail the consumer only when its reset does not
  -- wait: with the head as the consumer reads it, the queue is in a state that `Queue.Delayed` reaches, in
  -- which the reset takes effect at once; and while the reset waits, no producer's store to the head
  -- waits.
  pub late_reset-Reachable :
      (t : System)
      → Reachable B O next contents t
      → Delayed.Reachable B next contents (as_seen t)
        × (t.waits ≡ true → (i x : ℕ) → (t.memory.buffers i).head ≢ some x)
  late_reset-Reachable t r =
      let (g, k) = Reachable-Good t r in (g, λ w. reached-no_head (as_seen t) g (k w))
