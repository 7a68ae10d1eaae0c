-- ===== src/Locked/Counters.antt =====
-- What programs that share a counter rely on when all threads call one operation of
-- src/primitives/opa_by_lock.h on it: tickets, and the release of a resource by its last user.
use open_pa.Base.{
  ℕ, ◌≡◌, ◌≢◌, ◌<◌, ◌≤◌, ◌+◌, ◌-◌, ◌%◌, ◌^◌, ◌==◌, if◌then◌else◌, zero, suc, refl, sym, ap, ◌∙◌,
  inl, inr, ◌⊎◌, arith, Bool-cases, true, List, [], ◌∷◌, replicate, ==-eq, subst,
}
use open_pa.Base.Word.{add32, minus_one}
use open_pa.Primitives.{Op, truth}
use open_pa.Primitives.Reference.{effect, result}
use open_pa.Locked.Threads.{Mutex, Entry, Memory, System, Reachable}
use open_pa.Locked.Invariant.{replay, IsLegal}
use open_pa.Locked.Order.{linearizable}

-- No call on the variable `p` is of another operation.
abbrev pub Only : ℕ → Op → List Entry → Type 0
Only p op [] = Unit
Only p op (e ∷ es) = ((e.call.ptr ≢ p) ⊎ (e.call.op ≡ op)) × Only p op es

-- How many calls there are on `p`, and their results, the latest first.
abbrev pub calls_on : ℕ → List Entry → ℕ
calls_on p [] = 0
calls_on p (e ∷ es) = if e.call.ptr == p then suc (calls_on p es) else calls_on p es

abbrev pub results_on : ℕ → List Entry → List ℕ
results_on p [] = []
results_on p (e ∷ es) = if e.call.ptr == p then e.result ∷ results_on p es else results_on p es

-- The value after `n` calls from the value `v`, and their results, the latest first.
abbrev value_after : Op → ℕ → ℕ → ℕ
value_after op v zero = v
value_after op v (suc n) = effect op (value_after op v n)

abbrev results_after : Op → ℕ → ℕ → List ℕ
results_after op v zero = []
results_after op v (suc n) = result op (value_after op v n) ∷ results_after op v n

module _ (m : Memory) (p : ℕ) (op : Op) where
  same_op :
      (e : Entry) → (e.call.ptr ≢ p) ⊎ (e.call.op ≡ op) → (e.call.ptr == p) ≡ true → e.call.op ≡ op
  same_op e (inl n) b = absurd (n (==-eq _ _ b))
  same_op e (inr f) b = f

  found :
      (e : Entry) (es : List Entry)
      → (e.call.ptr == p) ≡ true
      → replay m es p ≡ value_after op (m p) (calls_on p es)
      → replay m es e.call.ptr ≡ value_after op (m p) (calls_on p es)
  found e es b h = ap (replay m es) (==-eq _ _ b) ∙ h

  replay-Only :
      (es : List Entry) → Only p op es → replay m es p ≡ value_after op (m p) (calls_on p es)
  replay-Only [] o = refl
  replay-Only (e ∷ es) (o, os) = elim (Bool-cases (e.call.ptr == p)) [
    | inl b ↦ rw b (cc (same_op e o b, found e es b (replay-Only es os)))
    | inr b ↦ rw b (replay-Only es os)
  ]

  results_on-Only :
      (es : List Entry)
      → IsLegal m es
      → Only p op es
      → results_on p es ≡ results_after op (m p) (calls_on p es)
  results_on-Only [] l o = refl
  results_on-Only (e ∷ es) (r, l) (o, os) = elim (Bool-cases (e.call.ptr == p)) [
    | inl b ↦
        rw b (cc (r, same_op e o b, found e es b (replay-Only es os), results_on-Only es l os))
    | inr b ↦ rw b (results_on-Only es l os)
  ]

-- Tickets: the value counts up, and wraps.
tickets_value : (v n : ℕ) → v < 2 ^ 32 → value_after Op.fetch_and_incr_int v n ≡ (v + n) % 2 ^ 32
unfolding add32
tickets_value v zero h = omega arith
tickets_value v (suc n) h = omega (arith, tickets_value v n h)

abbrev NotIn : ℕ → List ℕ → Type 0
NotIn a [] = Unit
NotIn a (r ∷ rs) = (a ≢ r) × NotIn a rs

abbrev pub AllDistinct : List ℕ → Type 0
AllDistinct [] = Unit
AllDistinct (r ∷ rs) = NotIn r rs × AllDistinct rs

tickets_new :
    (v n k : ℕ)
    → v < 2 ^ 32
    → n ≤ k
    → k < 2 ^ 32
    → NotIn (value_after Op.fetch_and_incr_int v k) (results_after Op.fetch_and_incr_int v n)
tickets_new v zero k h a b = tt
tickets_new v (suc n) k h a b = (
  (λ e. omega (arith, tickets_value v n h, tickets_value v k h)),
  tickets_new v n k h (omega arith) b,
)

tickets-AllDistinct :
    (v n : ℕ) → v < 2 ^ 32 → n ≤ 2 ^ 32 → AllDistinct (results_after Op.fetch_and_incr_int v n)
tickets-AllDistinct v zero h a = tt
tickets-AllDistinct v (suc n) h a =
    (tickets_new v n n h (omega arith) (omega arith), tickets-AllDistinct v n h (omega arith))

-- Releases: the value counts down.
releases_value : (v n : ℕ) → n ≤ v → v < 2 ^ 32 → value_after Op.decr_and_test_int v n ≡ v - n
unfolding add32
releases_value v zero a h = omega arith
releases_value v (suc n) a h = omega (arith, releases_value v n (omega arith) h)

not_last : (v n x : ℕ) → x ≡ v - n → suc n < v → v < 2 ^ 32 → truth (add32 x minus_one == 0) ≡ 0
unfolding add32
not_last v n x e a h = ground arith

earlier_releases :
    (v n : ℕ) → n < v → v < 2 ^ 32 → results_after Op.decr_and_test_int v n ≡ replicate n 0
earlier_releases v zero a h = refl
earlier_releases v (suc n) a h =
    cc (
      not_last v n _ (releases_value v n (omega arith) h) a h,
      earlier_releases v n (omega arith) h,
    )

last_release : (n x : ℕ) → x ≡ suc n - n → truth (add32 x minus_one == 0) ≡ 1
unfolding add32
last_release n x e = ground arith

all_releases :
    (n : ℕ)
    → suc n < 2 ^ 32
    → results_after Op.decr_and_test_int (suc n) (suc n) ≡ 1 ∷ replicate n 0
all_releases n h = cc (
  last_release n _ (releases_value (suc n) n (omega arith) h),
  earlier_releases (suc n) n (omega arith) h,
)

module _ (mutex : Mutex) (m₀ : Memory) where
  -- For any mutex that keeps its documented laws, after any steps of any threads in which all calls on
  -- the variable `p` are of fetch-and-increment, and there are at most 2 ^ 32 of them: no two of them have
  -- had the same result, even if the counter has wrapped.
  pub fetch_and_incr_int-AllDistinct :
      (s : System mutex) (p : ℕ)
      → Reachable mutex m₀ s
      → Only p Op.fetch_and_incr_int s.history
      → m₀ p < 2 ^ 32
      → calls_on p s.history ≤ 2 ^ 32
      → AllDistinct (results_on p s.history)
  fetch_and_incr_int-AllDistinct s p r o h n =
      subst AllDistinct
        (sym (results_on-Only m₀ p Op.fetch_and_incr_int s.history (linearizable mutex m₀ s r) o))
        (tickets-AllDistinct (m₀ p) (calls_on p s.history) h n)

  -- For any mutex that keeps its documented laws, after any steps of any threads in which all calls on
  -- the variable `p` are of decrement-and-test, and there are as many as its value at the start, below
  -- 2 ^ 32 and not zero: the last of them, in the order of their critical sections, has had the result 1,
  -- and all others 0.
  pub decr_and_test_int-last :
      (s : System mutex) (p n : ℕ)
      → Reachable mutex m₀ s
      → Only p Op.decr_and_test_int s.history
      → m₀ p ≡ suc n
      → suc n < 2 ^ 32
      → calls_on p s.history ≡ suc n
      → results_on p s.history ≡ 1 ∷ replicate n 0
  decr_and_test_int-last s p n r o e h k =
      results_on-Only m₀ p Op.decr_and_test_int s.history (linearizable mutex m₀ s r) o
      ∙ rw (e, k) (all_releases n h)
