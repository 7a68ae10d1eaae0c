-- ===== src/Primitives/Reference.antt =====
-- The reference semantics of the operations of src/opa_primitives.h: what one call does to the value of
-- the variable, and what it returns, in one piece.
use open_pa.Base.{ℕ, ◌≡◌, ◌==◌, if◌then◌else◌, refl, arith, sym, ap, ◌∙◌, ◌<◌, ◌^◌}
use open_pa.Base.Word.{add32, minus_one, sub32-eq_zero, sub32-one}
use open_pa.Cell.{World}
use open_pa.Cell.Laws.{Swapped}
use open_pa.Primitives.{Op, Meets, truth}

abbrev pub effect : Op → ℕ → ℕ
effect (Op.store_int v) p = v
effect (Op.store_ptr v) p = v
effect (Op.store_release_int v) p = v
effect (Op.store_release_ptr v) p = v
effect (Op.add_int v) p = add32 p v
effect (Op.fetch_and_add_int v) p = add32 p v
effect Op.incr_int p = add32 p 1
effect Op.fetch_and_incr_int p = add32 p 1
effect Op.decr_int p = add32 p minus_one
effect Op.decr_and_test_int p = add32 p minus_one
effect Op.fetch_and_decr_int p = add32 p minus_one
effect (Op.cas_int old new) p = if p == old then new else p
effect (Op.cas_ptr old new) p = if p == old then new else p
effect (Op.swap_int v) p = v
effect (Op.swap_ptr v) p = v
effect _ p = p

-- 0 for an operation that returns nothing.
abbrev pub result : Op → ℕ → ℕ
result (Op.store_int v) p = 0
result (Op.store_ptr v) p = 0
result (Op.store_release_int v) p = 0
result (Op.store_release_ptr v) p = 0
result (Op.add_int v) p = 0
result Op.incr_int p = 0
result Op.decr_int p = 0
result Op.decr_and_test_int p = truth (add32 p minus_one == 0)
result _ p = p

new_value_zero : (p : ℕ) → p < 2 ^ 32 → (p == 1) ≡ (add32 p minus_one == 0)
new_value_zero p h = sym (sub32-eq_zero p h) ∙ ap (λ v. v == 0) (sub32-one p)

-- A call that keeps its promise has the effect and the result of the reference semantics on some value
-- that the variable had.
pub Meets-reference :
    (m : ℕ) (op : Op) (w : World) (r : ℕ) (w' : World)
    → Meets m op w r w'
    → (prev : ℕ) × (r ≡ result op prev) × (w'.cell ≡ effect op prev)
Meets-reference m Op.load_int w r w' h = (r, refl, h.now)
Meets-reference m Op.load_ptr w r w' h = (r, refl, h.now)
Meets-reference m Op.load_acquire_int w r w' (h, _) = (r, refl, h.now)
Meets-reference m Op.load_acquire_ptr w r w' (h, _) = (r, refl, h.now)
Meets-reference m (Op.store_int v) w r w' (p, e, h) = (p, e, h.now)
Meets-reference m (Op.store_ptr v) w r w' (p, e, h) = (p, e, h.now)
Meets-reference m (Op.store_release_int v) w r w' ((p, e, h), _) = (p, e, h.now)
Meets-reference m (Op.store_release_ptr v) w r w' ((p, e, h), _) = (p, e, h.now)
Meets-reference m (Op.add_int v) w r w' (p, e, h) = (p, e, h.now)
Meets-reference m (Op.fetch_and_add_int v) w r w' h = (r, refl, h.now)
Meets-reference m Op.incr_int w r w' (p, e, h) = (p, e, h.now)
Meets-reference m Op.decr_int w r w' (p, e, h) = (p, e, h.now)
Meets-reference m Op.decr_and_test_int w r w' (p, e, h) =
    (p, e ∙ ap truth (new_value_zero p h.kept.found), h.now)
Meets-reference m Op.fetch_and_incr_int w r w' h = (r, refl, h.now)
Meets-reference m Op.fetch_and_decr_int w r w' h = (r, refl, h.now)
Meets-reference m (Op.cas_int old new) w r w' (Swapped.hit e h) =
    (r, refl, ground (arith, e, h.now))
Meets-reference m (Op.cas_int old new) w r w' (Swapped.miss e h) =
    (r, refl, ground (arith, e, h.now))
Meets-reference m (Op.cas_ptr old new) w r w' (Swapped.hit e h) =
    (r, refl, ground (arith, e, h.now))
Meets-reference m (Op.cas_ptr old new) w r w' (Swapped.miss e h) =
    (r, refl, ground (arith, e, h.now))
Meets-reference m (Op.swap_int v) w r w' h = (r, refl, h.now)
Meets-reference m (Op.swap_ptr v) w r w' h = (r, refl, h.now)
