-- ===== src/Queue/Runs.antt =====
-- The runs of the queue's operations, branch by branch.
use open_pa.Base.{zero, suc, refl, suc, ℕ, ◌≡◌, ◌≢◌, some, arith, true, false}
use open_pa.Shm.{rel_to_abs, abs_to_rel}
use open_pa.Queue.{
  waiting, last_one, wait_next, State, ok, update, is_empty, peek_head, enqueue, dequeue, load_next,
  store_next,
}

module _ (s : State) where
  pub is_empty-nothing : s.shadow_head ≡ 0 → s.head ≡ 0 → is_empty s ≡ ok true s
  unfolding is_empty
  is_empty-nothing e z = ground arith

  pub is_empty-shadow : s.shadow_head ≢ 0 → is_empty s ≡ ok false s
  unfolding is_empty
  is_empty-shadow n = ground arith

  pub is_empty-refill :
      s.shadow_head ≡ 0
      → s.head ≢ 0
      → is_empty s ≡ ok false (record s { shadow_head = s.head; head = 0 })
  unfolding is_empty
  is_empty-refill e n = ground arith

  pub peek_head-nothing : s.shadow_head ≡ 0 → peek_head s ≡ ok 0 s
  unfolding peek_head
  peek_head-nothing e = ground arith

  pub peek_head-shadow : s.shadow_head ≢ 0 → peek_head s ≡ ok (rel_to_abs s.base s.shadow_head) s
  unfolding peek_head
  peek_head-shadow n = ground arith

  -- The swap found no predecessor: the element becomes the head.
  pub enqueue-first :
      (elt v : ℕ)
      → s.next elt ≡ some v
      → s.tail ≡ 0
      → enqueue elt s
        ≡ ok tt (record s {
          next = update s.next elt 0;
          tail = abs_to_rel s.base elt;
          head = abs_to_rel s.base elt;
        })
  unfolding enqueue store_next
  enqueue-first elt v e z = ground arith

  -- The swap found a predecessor, and its link is set.
  pub enqueue-behind :
      (elt v u : ℕ)
      → s.next elt ≡ some v
      → s.tail ≢ 0
      → s.next (rel_to_abs s.base s.tail) ≡ some u
      → enqueue elt s
        ≡ ok tt (record s {
          next = update (update s.next elt 0) (rel_to_abs s.base s.tail) (abs_to_rel s.base elt);
          tail = abs_to_rel s.base elt;
        })
  unfolding enqueue store_next
  enqueue-behind elt v u e n k = ground arith

  -- The element has a successor.
  pub dequeue-more :
      (fuel n : ℕ)
      → s.next (rel_to_abs s.base s.shadow_head) ≡ some n
      → n ≢ 0
      → dequeue fuel s
        ≡ ok
            (rel_to_abs s.base s.shadow_head)
            (record s { shadow_head = n; next = update s.next (rel_to_abs s.base s.shadow_head) 0 })
  unfolding dequeue store_next load_next
  dequeue-more fuel n e ne = ground arith

  -- The element is the last one, and the tail still leads to it.
  pub dequeue-last :
      (fuel : ℕ)
      → s.next (rel_to_abs s.base s.shadow_head) ≡ some 0
      → s.tail ≡ s.shadow_head
      → dequeue fuel s
        ≡ ok (rel_to_abs s.base s.shadow_head) (record s {
          shadow_head = 0;
          tail = 0;
          next = update s.next (rel_to_abs s.base s.shadow_head) 0;
        })
  unfolding dequeue store_next load_next
  dequeue-last fuel e t = ground arith

  -- Nobody sets the link that the busy wait is for.
  wait_next-waits : (fuel e : ℕ) → s.next e ≡ some 0 → wait_next fuel e s ≡ waiting
  unfolding wait_next load_next
  wait_next-waits zero e h = refl
  wait_next-waits (suc fuel) e h = ground (arith, wait_next-waits fuel e h)

-- The element is the last one, and the tail leads to another.
pub dequeue-waits :
    (s : State) (fuel : ℕ)
    → s.next (rel_to_abs s.base s.shadow_head) ≡ some 0
    → s.tail ≢ s.shadow_head
    → dequeue fuel s ≡ waiting
unfolding dequeue last_one load_next
dequeue-waits s fuel e t =
    ground (
      arith,
      wait_next-waits (record s { shadow_head = 0 }) fuel (rel_to_abs s.base s.shadow_head) e,
    )
