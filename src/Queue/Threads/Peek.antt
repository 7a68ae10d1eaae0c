-- ===== src/Queue/Threads/Peek.antt =====
-- What the consumer sees of the queue without taking an element out.
use open_pa.Base.{ℕ, ◌≡◌, ◌≢◌, ◌==◌, Bool-cases, ◌⊎◌, inl, inr, refl, sym, subst}
use open_pa.Queue.Shape.{first}
use open_pa.Queue.Threads.{System, resting, peek_head, Reachable}
use open_pa.Queue.Threads.Invariant.{Front}
use open_pa.Queue.Threads.Consumers.{Place-shadow, is_same, not_same}
use open_pa.Queue.Threads.Order.{Reachable-Inv}

-- In every state that the threads reach by `Step` from an initialised queue, while the consumer is in no
-- call: `peek_head` gives null, and the shadow head is null, so that `is_empty` has not yet answered 0; or
-- it gives the first element of the queue, which is not null, and the head is null.
pub peek_head-first_queued :
    (next : ℕ → ℕ) (s : System)
    → Reachable next s
    → s.consumer ≡ resting
    → ((s.shadow_head ≡ 0) × (peek_head s ≡ 0))
      ⊎ ((peek_head s ≢ 0) × (peek_head s ≡ first s.queued) × (s.head ≡ 0))
unfolding peek_head
peek_head-first_queued next s r e = elim (Bool-cases (s.shadow_head == 0)) [
  | inl b ↦ rw b (inl (is_same s.shadow_head 0 b, refl))
  | inr b ↦
      let n = not_same s.shadow_head 0 b in
      let h = Reachable-Inv next s r in
      let (y, f) = Place-shadow s s.queued (subst (Front s) e h.front) n in rw b (inr (n, sym f, y))
]
