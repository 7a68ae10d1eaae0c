-- ===== src/Locked/Body.antt =====
-- Each operation of src/primitives/opa_by_lock.h is one critical section, and does in it what the
-- reference semantics says.
use mathlib.Core.Path.{fun_ext}
use open_pa.Base.{
  ℕ, ◌≡◌, ◌==◌, if◌then◌else◌, refl, arith, ap, ◌∙◌, eq_zero_comm, Bool-cases, inl, inr,
}
use open_pa.Base.Word.{add32, sub32-one, minus_one}
use open_pa.Primitives.{Op, truth}
use open_pa.Primitives.Reference.{effect, result}
use open_pa.Locked.Accesses.{Program, return, load, store, lock, unlock, ◌>>=◌}
use open_pa.Locked.{code}
use open_pa.Locked.Threads.{Call, Memory, write}

-- A run that nobody disturbs: the memory that it leaves, and its result.
abbrev pub run : Program ℕ → Memory → Memory × ℕ
run (return r) m = (m, r)
run (load p k) m = run (k (m p)) m
run (store p v k) m = run k (write m p v)
run (lock k) m = run k m
run (unlock k) m = run k m

-- What is left once the lock is free again.
abbrev pub Returns : Program ℕ → Type 0
Returns (return r) = Unit
Returns _ = ⊥

-- What is left inside the critical section: accesses, and then the unlock.
abbrev pub InSection : Program ℕ → Type 0
InSection (load p k) = (v : ℕ) → InSection (k v)
InSection (store p v k) = InSection k
InSection (unlock k) = Returns k
InSection _ = ⊥

abbrev pub IsSection : Program ℕ → Type 0
IsSection (lock k) = InSection k
IsSection _ = ⊥

-- The call in one piece.
abbrev pub apply : Call → Memory → Memory
apply c m = write m c.ptr (effect c.op (m c.ptr))

abbrev pub answer : Call → Memory → ℕ
answer c m = result c.op (m c.ptr)

cas_tail-InSection :
    (p old new v : ℕ)
    → InSection (
        (if v == old then store p new (return tt) else return tt)
        >>= (λ (_ : Unit {0}). unlock (return v)))
cas_tail-InSection p old new v = elim (Bool-cases (v == old)) [ inl e ↦ rw e tt | inr e ↦ rw e tt ]

-- The lock is taken once and released once, and every access is between.
pub code-IsSection : (p : ℕ) (op : Op) → IsSection (code p op)
unfolding code
code-IsSection p Op.load_int = λ v. tt
code-IsSection p Op.load_ptr = λ v. tt
code-IsSection p Op.load_acquire_int = λ v. tt
code-IsSection p Op.load_acquire_ptr = λ v. tt
code-IsSection p (Op.store_int v) = tt
code-IsSection p (Op.store_ptr v) = tt
code-IsSection p (Op.store_release_int v) = tt
code-IsSection p (Op.store_release_ptr v) = tt
code-IsSection p (Op.add_int v) = λ v. tt
code-IsSection p (Op.fetch_and_add_int v) = λ v w. tt
code-IsSection p Op.incr_int = λ v. tt
code-IsSection p Op.decr_int = λ v. tt
code-IsSection p Op.decr_and_test_int = λ v. tt
code-IsSection p Op.fetch_and_incr_int = λ v w. tt
code-IsSection p Op.fetch_and_decr_int = λ v w. tt
code-IsSection p (Op.cas_int old new) = λ v. cas_tail-InSection p old new v
code-IsSection p (Op.cas_ptr old new) = λ v. cas_tail-InSection p old new v
code-IsSection p (Op.swap_int v) = λ v. tt
code-IsSection p (Op.swap_ptr v) = λ v. tt

write_same : (m : Memory) (p : ℕ) → m ≡ write m p (m p)
write_same m p = fun_ext (λ q. written m p q)
  where
    written : (m : Memory) (p q : ℕ) → m q ≡ write m p (m p) q
    written m p q = ground arith

run-cas_tail :
    (p old new : ℕ) (m : Memory)
    → run
        ((if m p == old then store p new (return tt) else return tt)
          >>= (λ (_ : Unit {0}). unlock (return (m p))))
        m
      ≡ (write m p (if m p == old then new else m p), m p)
run-cas_tail p old new m = elim (Bool-cases (m p == old)) [
  | inl e ↦ rw e refl
  | inr e ↦ rw e (ap (λ n. (n, m p)) (write_same m p))
]

-- Nothing but the variable changes, and it and the result are those of the reference semantics.
pub run-code :
    (p : ℕ) (op : Op) (m : Memory)
    → run (code p op) m ≡ (write m p (effect op (m p)), result op (m p))
unfolding code
run-code p Op.load_int m = ap (λ n. (n, m p)) (write_same m p)
run-code p Op.load_ptr m = ap (λ n. (n, m p)) (write_same m p)
run-code p Op.load_acquire_int m = ap (λ n. (n, m p)) (write_same m p)
run-code p Op.load_acquire_ptr m = ap (λ n. (n, m p)) (write_same m p)
run-code p (Op.store_int v) m = refl
run-code p (Op.store_ptr v) m = refl
run-code p (Op.store_release_int v) m = refl
run-code p (Op.store_release_ptr v) m = refl
run-code p (Op.add_int v) m = refl
run-code p (Op.fetch_and_add_int v) m = refl
run-code p Op.incr_int m = refl
run-code p Op.decr_int m = ap (λ v. (write m p v, 0)) (sub32-one (m p))
run-code p Op.decr_and_test_int m =
    ap (λ v. (write m p v, truth (0 == v))) (sub32-one (m p))
    ∙ ap (λ b. (write m p (add32 (m p) minus_one), truth b)) (eq_zero_comm (add32 (m p) minus_one))
run-code p Op.fetch_and_incr_int m = refl
run-code p Op.fetch_and_decr_int m = ap (λ v. (write m p v, m p)) (sub32-one (m p))
run-code p (Op.cas_int old new) m = run-cas_tail p old new m
run-code p (Op.cas_ptr old new) m = run-cas_tail p old new m
run-code p (Op.swap_int v) m = refl
run-code p (Op.swap_ptr v) m = refl
