-- ===== src/Queue/Delayed/Simulation.antt =====
-- Each step of the queue with delayed stores is some steps, or none, of the queue of Queue.Threads.
use open_pa.Base.{◌∙◌, sym, ap, refl, ℕ, ◌≡◌, some, inl, inr}
use open_pa.Queue.Threads
use open_pa.Queue.Threads.{
  swapping, linking, produce_at, consume, ending, waiting, resting, loading,
}
use open_pa.Queue.Threads.Solo.{cleared}
use open_pa.Queue.Threads.Order.{Reachable-Inv}
use open_pa.Queue.Delayed.Invariant.{Expected, Sim}
use open_pa.Queue.Delayed.Deliveries.{deliver_content-Sim, deliver_null-Sim}
use open_pa.Queue.Delayed.Passes.{
  swap-Sim, at_swap-swapping, pass-Sim, cleared-Reachable, produce-Reachable, pass-idle,
}
use open_pa.Queue.Delayed.Links.{deliver_head-Sim, deliver_link-Sim}
use open_pa.Queue.Delayed.Consumer.{consume-Sim, begin_dequeue-Sim, begin_is_empty-Sim}
use open_pa.Queue.Delayed.Writers.{begin-Sim}
use open_pa.Queue.Delayed.Stores.{link-Sim, clear_link-Sim, fill-Sim}
use open_pa.Queue.Delayed.{
  deliver_next, initial, System, Reachable, start, Step, ProducerStep, Buffer, IsEmpty,
}

-- The delayed queue goes on as some queue of Queue.Threads.
abbrev pub Simulated : (next : ℕ → ℕ) → System → Type 0
Simulated next t = (s : Threads.System) × Threads.Reachable next s × Sim t s

delivered :
    (next : ℕ → ℕ) (t : System) (s : Threads.System) (i p x : ℕ)
    → Threads.Reachable next s
    → Sim t s
    → (t.buffers i).next p ≡ some x
    → Expected (t.writers i) (s.producers i) p x
    → Simulated next (deliver_next i p x t)
delivered next t s i p x r h e (inl (m, z)) =
    (s, r, deliver_null-Sim t s i p x h m z (Reachable-Inv next s r))
delivered next t s i p x r h e (inr (z, q)) = (
  produce_at (linking p x) i s,
  produce-Reachable next s i (linking p x) q r,
  deliver_link-Sim t s i x h p z (Reachable-Inv next s r) e q,
)

ProducerStep-Simulated :
    (Barrier : Buffer → Type 0) (next : ℕ → ℕ) (t u : System)
    → ((b : Buffer) → Barrier b → IsEmpty b)
    → ProducerStep Barrier t u
    → Simulated next t
    → Simulated next u
ProducerStep-Simulated B next t u d (ProducerStep.begin_enqueue i a c e f) (s, r, h) =
    (s, r, begin-Sim t s i h a c e f)
ProducerStep-Simulated B next t u d (ProducerStep.filled i a c e) (s, r, h) =
    (s, r, fill-Sim t s i h a c e)
ProducerStep-Simulated B next t u d (ProducerStep.cleared i a e) (s, r, h) =
    (s, r, clear_link-Sim t s i h a (Reachable-Inv next s r) e)
ProducerStep-Simulated B next t u d (ProducerStep.passed i a e b) (s, r, h) =
    let (q, k) = pass-idle t s i a h e (d (t.buffers i) b) in
    (cleared s i a, cleared-Reachable next s i a q k r, pass-Sim t s i a h e (d (t.buffers i) b))
ProducerStep-Simulated B next t u d (ProducerStep.swapped i a e) (s, r, h) = (
  produce_at (swapping a) i s,
  produce-Reachable next s i (swapping a) (at_swap-swapping t s i a h e) r,
  swap-Sim t s i a h e,
)
ProducerStep-Simulated B next t u d (ProducerStep.linked i p a e) (s, r, h) =
    (s, r, link-Sim t s i h p a e)
ProducerStep-Simulated B next t u d (ProducerStep.head_delivered i x e) (s, r, h) = (
  produce_at (linking 0 x) i s,
  produce-Reachable next s i (linking 0 x) ((h.local i).head x e) r,
  deliver_head-Sim t s i x h e,
)
ProducerStep-Simulated B next t u d (ProducerStep.next_delivered i p x e) (s, r, h) =
    delivered next t s i p x r h e ((h.local i).links p x e)
ProducerStep-Simulated B next t u d (ProducerStep.content_delivered i p x e) (s, r, h) =
    let (m, z) = (h.local i).content p x e in (s, r, deliver_content-Sim t s i p x h m z)

Step-Simulated :
    (Barrier : Buffer → Type 0) (next : ℕ → ℕ) (t u : System)
    → ((b : Buffer) → Barrier b → IsEmpty b)
    → Step Barrier t u
    → Simulated next t
    → Simulated next u
Step-Simulated B next t u d (Step.produced e) h = ProducerStep-Simulated B next t u d e h
Step-Simulated B next t u d (Step.begin_is_empty e) (s, r, h) = (
  _,
  Threads.Reachable.then r (Threads.Step.begin_is_empty (ap (λ u. u.consumer) (sym h.same) ∙ e)),
  begin_is_empty-Sim t s h,
)
Step-Simulated B next t u d (Step.begin_dequeue e z) (s, r, h) = (
  _,
  Threads.Reachable.then r (
      Threads.Step.begin_dequeue (ap (λ u. u.consumer) (sym h.same) ∙ e)
        (λ k. z (ap (λ u. u.shadow_head) h.same ∙ k))),
  begin_dequeue-Sim t s h,
)
Step-Simulated B next t u d Step.consumed (s, r, h) = (
  consume s,
  Threads.Reachable.then r Threads.Step.consumer,
  consume-Sim t s h (Reachable-Inv next s r),
)

initial-Sim : (next contents : ℕ → ℕ) → Sim (initial next contents) (Threads.initial next)
initial-Sim next contents = record {
  same = refl;
  next = λ p. inl refl;
  contents = λ p. inl refl;
  unique = λ i j a m. absurd m;
  local = λ i. record {
    stage = inl refl;
    head = λ x e. cc;
    links = λ p x e. cc;
    content = λ p x e. cc;
  };
}

module _ (Barrier : Buffer → Type 0) (drains : (b : Buffer) → Barrier b → IsEmpty b)
    (next contents : ℕ → ℕ) where
  pub Reachable-Simulated : (t : System) → Reachable Barrier next contents t → Simulated next t
  Reachable-Simulated t start =
      (Threads.initial next, Threads.Reachable.start, initial-Sim next contents)
  Reachable-Simulated t (Reachable.then {t = p} r e) =
      Step-Simulated Barrier next p t drains e (Reachable-Simulated p r)
