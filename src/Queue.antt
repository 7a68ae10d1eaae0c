-- ===== src/Queue.antt =====
-- The multi-producer, single-consumer queue of src/opa_queue.h and src/opa_queue.c, run by one
-- thread: the barriers of `enqueue` and `dequeue`, and the pause in the busy wait, do nothing here.
pub mod Shape
pub mod Runs
pub mod Ops
pub mod Dequeue
pub mod Calls
pub mod Threads
pub mod Delayed
pub mod Resets
use open_pa.Base.{
  ℕ, ◌≡◌, ◌==◌, if◌then◌else◌, Bool, true, false, not, Option, none, some, zero, suc,
}
use open_pa.Shm.{
  rel_null, is_rel_null, rel_are_equal, rel_to_abs, abs_to_rel, swap_rel, cas_rel_null,
}

-- OPA_Queue_info_t, with the base address of this process, and the `next` field of the header of the
-- element at each absolute address where there is one.
pub record State : Type 0 where
  pub base : ℕ
  pub head : ℕ
  pub tail : ℕ
  pub shadow_head : ℕ
  pub next : ℕ → Option ℕ

-- A run ends, or reads an element where there is none, or waits for longer than its fuel.
pub data Run (A : Type 0) : Type 0 where
  ok : A → State → Run A
  fault : Run A
  waiting : Run A

abbrev pub Q : Type 0 → Type 0
Q A = State → Run A

abbrev pub pure : {A : Type 0} → A → Q A
pure = ok

abbrev pub chain : {A B : Type 0} → Run A → (A → Q B) → Run B
chain (ok a s) k = k a s
chain fault k = fault
chain waiting k = waiting

infixl 5 ◌>>=◌ ◌>>◌
abbrev pub ◌>>=◌ : {A B : Type 0} → Q A → (A → Q B) → Q B
m >>= k = λ s. chain (m s) k

abbrev pub ◌>>◌ : {B : Type 0} → Q (Unit {0}) → Q B → Q B
m >> k = m >>= λ _. k

-- `qhead->head`, and so on.
abbrev read : (State → ℕ) → Q ℕ
read field s = ok (field s) s

abbrev set_head : ℕ → Q (Unit {0})
set_head v s = ok tt (record s { head = v })

abbrev set_tail : ℕ → Q (Unit {0})
set_tail v s = ok tt (record s { tail = v })

abbrev set_shadow_head : ℕ → Q (Unit {0})
set_shadow_head v s = ok tt (record s { shadow_head = v })

abbrev pub update : (ℕ → Option ℕ) → ℕ → ℕ → ℕ → Option ℕ
update f p v q = if p == q then some v else f q

-- `e->hdr.next` and the store to it.
unfoldable pub load_next : ℕ → Q ℕ
load_next p s = elim (s.next p) [ none ↦ fault | some v ↦ ok v s ]

unfoldable pub store_next : ℕ → ℕ → Q (Unit {0})
store_next p v s = elim (s.next p) [
  | none ↦ fault
  | some _ ↦ ok tt (record s { next = update s.next p v })
]

unfoldable pub init : Q (Unit {0})
init = do set_head rel_null; set_tail rel_null; set_shadow_head rel_null

unfoldable pub header_init : ℕ → Q (Unit {0})
header_init hdr = store_next hdr rel_null

-- The shadow head is null: take over the head, and reset it for the next time.
refill : Q Bool
refill = do
  head ← read State.head
  if is_rel_null head
      then pure true
      else (do r ← read State.head; set_shadow_head r; set_head rel_null; pure false)

unfoldable pub is_empty : Q Bool
unfolding refill
is_empty = do shadow ← read State.shadow_head; if is_rel_null shadow then refill else pure false

-- The pointer to the first element, or NULL.
unfoldable pub peek_head : Q ℕ
peek_head = do
  shadow ← read State.shadow_head
  base ← read State.base
  if is_rel_null shadow then pure 0 else pure (rel_to_abs base shadow)

unfoldable pub enqueue : (elt : ℕ) → Q (Unit {0})
unfolding swap_rel
enqueue elt = do
  base ← read State.base
  let r_elt = abs_to_rel base elt
  store_next elt rel_null
  tail ← read State.tail
  let (r_prev, tail') = swap_rel tail r_elt
  set_tail tail'
  if is_rel_null r_prev then set_head r_elt else store_next (rel_to_abs base r_prev) r_elt

-- The busy wait for the producer that has swapped the tail and not linked its element yet.
unfoldable pub wait_next : ℕ → ℕ → Q (Unit {0})
wait_next zero e = λ _. waiting
wait_next (suc fuel) e = do n ← load_next e; if is_rel_null n then wait_next fuel e else pure tt

-- The branch for an element that has no successor yet.
unfoldable pub last_one : (fuel e r_e : ℕ) → Q (Unit {0})
unfolding cas_rel_null
last_one fuel e r_e = do
  set_shadow_head rel_null
  tail ← read State.tail
  let (old_tail, tail') = cas_rel_null tail r_e
  set_tail tail'
  if not (rel_are_equal old_tail r_e)
      then (do wait_next fuel e; n ← load_next e; set_shadow_head n)
      else pure tt

unfoldable pub dequeue : ℕ → Q ℕ
unfolding last_one wait_next
dequeue fuel = do
  r_e ← read State.shadow_head
  base ← read State.base
  let e = rel_to_abs base r_e
  n ← load_next e
  if not (is_rel_null n) then (do n' ← load_next e; set_shadow_head n') else last_one fuel e r_e
  store_next e rel_null
  pure e
