-- ===== src/Platform/Unsafe/Alone.antt =====
-- The operations of src/primitives/opa_unsafe.h when no other thread runs, and when one does.
use open_pa.Base.{
  eq_zero_comm, ℕ, ◌≡◌, ◌<◌, refl, sym, ◌≢◌, ◌^◌, [], ◌∷◌, List, Bool, inl, inr, arith, ◌==◌, ap,
}
use open_pa.Base.{◌∙◌, false, Bool-cases}
use open_pa.Base.Word.{add32, sub32, add32-lt, sub32-one, sub32-eq_zero, sub32-lt}
use open_pa.Cell.{World, Access, put, quiet, get, set, settle}
use open_pa.Cell.Laws.{Finishes, finishes, Applied, Observed, Swapped, Applied-cong, writes}
use open_pa.Cell.{Event}
use open_pa.Primitives.{Updated, Op, perform, Meets, WellTyped, modulus, int_mod, truth}
use open_pa.Platform.Unsafe.{
  platform, load_int, store_int, load_ptr, store_ptr, add_int, incr_int, decr_int,
  decr_and_test_int, fetch_and_add_int, fetch_and_incr_int, fetch_and_decr_int, cas_int, cas_ptr,
  swap_int, swap_ptr,
}

-- A call without its ordering.
abbrev pub plain : Op → Op
plain Op.load_acquire_int = Op.load_int
plain Op.load_acquire_ptr = Op.load_ptr
plain (Op.store_release_int v) = Op.store_int v
plain (Op.store_release_ptr v) = Op.store_ptr v
plain op = op

-- A thread with no others.
abbrev pub alone : ℕ → Bool → List Access → World
alone cell linked trace = record { cell = cell; linked = linked; ahead = []; trace = trace }

module _ (m cell : ℕ) (linked : Bool) (b : cell < m) where
  seen :
      (trace t : List Access)
      → writes t ≡ writes trace
      → Observed m (alone cell linked trace) cell (alone cell linked t)
  seen trace t e = record {
    now = refl;
    none_written = e;
    kept = record { found = b; range = record { cell = b; ahead = tt }; events = omega arith };
  }

  changed :
      (f : ℕ → ℕ) (trace t : List Access)
      → f cell < m
      → writes t ≡ (cell, f cell) ∷ writes trace
      → Applied m f (alone cell linked trace) cell (alone (f cell) false t)
  changed f trace t k e = record {
    now = refl;
    once = e;
    kept = record { found = b; range = record { cell = k; ahead = tt }; events = omega arith };
  }

  cas :
      (old new : ℕ) (trace : List Access)
      → new < m
      → Finishes
          (Swapped m old new (alone cell linked trace))
          (cas_int old new (alone cell linked trace))
  unfolding cas_int get set settle
  cas old new trace t = elim (Bool-cases (cell == old)) [
    | inl e ↦ rw e (finishes (Swapped.hit (ground (arith, e)) (changed (λ _. new) trace _ t refl)))
    | inr e ↦ rw e (finishes (Swapped.miss (ground (arith, e)) (seen trace _ refl)))
  ]

zero_first : (c : ℕ) → c < int_mod → truth (0 == sub32 c 1) ≡ truth (c == 1)
zero_first c b = ap truth (eq_zero_comm (sub32 c 1) ∙ sub32-eq_zero c b)

-- In a program of one thread, a well-typed call of any operation on a variable in range ends with the
-- result and the effect that `Meets` promises for it, but that a load with acquire and a store with
-- release are plain ones, without a fence.
pub unsafe-Meets :
    (m : ℕ) (op : Op) (cell : ℕ) (linked : Bool) (trace : List Access)
    → WellTyped m op
    → cell < modulus m op
    → Finishes
        (Meets m (plain op) (alone cell linked trace))
        (perform platform op (alone cell linked trace))
unfolding perform platform load_int store_int load_ptr store_ptr add_int incr_int decr_int
    decr_and_test_int fetch_and_add_int fetch_and_incr_int fetch_and_decr_int cas_int cas_ptr
    swap_int swap_ptr get set settle
unsafe-Meets m Op.load_int c l x t b = finishes (seen int_mod c l b x _ refl)
unsafe-Meets m Op.load_ptr c l x t b = finishes (seen m c l b x _ refl)
unsafe-Meets m Op.load_acquire_int c l x t b = finishes (seen int_mod c l b x _ refl)
unsafe-Meets m Op.load_acquire_ptr c l x t b = finishes (seen m c l b x _ refl)
unsafe-Meets m (Op.store_int v) c l x t b =
    finishes (c, refl, changed int_mod c l b (λ _. v) x _ t refl)
unsafe-Meets m (Op.store_ptr v) c l x t b = finishes (c, refl, changed m c l b (λ _. v) x _ t refl)
unsafe-Meets m (Op.store_release_int v) c l x t b =
    finishes (c, refl, changed int_mod c l b (λ _. v) x _ t refl)
unsafe-Meets m (Op.store_release_ptr v) c l x t b =
    finishes (c, refl, changed m c l b (λ _. v) x _ t refl)
unsafe-Meets m (Op.add_int v) c l x t b =
    finishes (c, refl, changed int_mod c l b (λ p. add32 p v) x _ (add32-lt c v) refl)
unsafe-Meets m (Op.fetch_and_add_int v) c l x t b =
    finishes (changed int_mod c l b (λ p. add32 p v) x _ (add32-lt c v) refl)
unsafe-Meets m Op.incr_int c l x t b =
    finishes (c, refl, changed int_mod c l b (λ p. add32 p 1) x _ (add32-lt c 1) refl)
unsafe-Meets m Op.decr_int c l x t b = finishes (
  c,
  refl,
  Applied-cong (sub32-one c) (changed int_mod c l b (λ p. sub32 p 1) x _ (sub32-lt c 1) refl),
)
unsafe-Meets m Op.decr_and_test_int c l x t b = finishes (
  c,
  zero_first c b,
  Applied-cong (sub32-one c) (changed int_mod c l b (λ p. sub32 p 1) x _ (sub32-lt c 1) refl),
)
unsafe-Meets m Op.fetch_and_incr_int c l x t b =
    finishes (changed int_mod c l b (λ p. add32 p 1) x _ (add32-lt c 1) refl)
unsafe-Meets m Op.fetch_and_decr_int c l x t b =
    finishes
      (Applied-cong (sub32-one c) (changed int_mod c l b (λ p. sub32 p 1) x _ (sub32-lt c 1) refl))
unsafe-Meets m (Op.cas_int old new) c l x t b = cas int_mod c l b old new x t
unsafe-Meets m (Op.cas_ptr old new) c l x t b = cas m c l b old new x t
unsafe-Meets m (Op.swap_int v) c l x t b = finishes (changed int_mod c l b (λ _. v) x _ t refl)
unsafe-Meets m (Op.swap_ptr v) c l x t b = finishes (changed m c l b (λ _. v) x _ t refl)

-- Another thread stores `y` after the next access, and goes on with `es`.
abbrev pub disturbed : (x y : ℕ) → List Event → Bool → List Access → World
disturbed x y es linked trace = record {
  cell = x;
  linked = linked;
  ahead = quiet ∷ put y ∷ es;
  trace = trace;
}

add32-injective : (x y val : ℕ) → x < 2 ^ 32 → y < 2 ^ 32 → add32 y val ≡ add32 x val → x ≡ y
unfolding add32
add32-injective x y val h k e = omega (arith, h, k, e)

abbrev latest : List (ℕ × ℕ) → ℕ × ℕ
latest [] = (0, 0)
latest (p ∷ ps) = p

-- A write that replaced `y` by the sum of another value.
not_Updated :
    (x y val : ℕ) (w w' : World) (r : ℕ) (ps : List (ℕ × ℕ))
    → x < 2 ^ 32
    → y < 2 ^ 32
    → x ≢ y
    → writes w'.trace ≡ (y, add32 x val) ∷ ps
    → Updated int_mod (λ p. add32 p val) w r w'
    → ⊥
not_Updated x y val w w' r ps h k n e (prev, _, a) =
    let f : (y, add32 x val) ≡ (prev, add32 prev val) = ap latest (sym e ∙ a.once) in
    n (
      add32-injective x y val h k (ap (λ p. add32 p val) (ap (λ p. p.0) f) ∙ sym (ap (λ p. p.1) f)))

-- When another thread stores `y` between the load, which finds another value `x`, and the store of an
-- addition, both values of 32 bits: the call ends, and the store of `y` has been made, since the other
-- thread is past it; but the call has replaced `y` by the sum of `x` and the argument. So the call does not
-- keep the promise of `add_int`.
pub add_int-loses :
    (x y val : ℕ) (es : List Event) (linked : Bool) (trace : List Access)
    → x < 2 ^ 32
    → y < 2 ^ 32
    → x ≢ y
    → Finishes
        (λ _ w'.
          (w'.cell ≡ add32 x val)
          × (w'.ahead ≡ es)
          × (writes w'.trace ≡ (y, add32 x val) ∷ writes trace))
        (add_int val (disturbed x y es linked trace))
      × ¬ Finishes
          (Meets int_mod (Op.add_int val) (disturbed x y es linked trace))
          (perform platform (Op.add_int val) (disturbed x y es linked trace))
unfolding perform platform add_int get set settle
add_int-loses x y val es linked trace h k n = (
  finishes (refl, refl, refl),
  λ f. elim f [ finishes m ↦ not_Updated x y val _ _ _ (writes trace) h k n refl m ],
)
