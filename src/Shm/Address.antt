-- ===== src/Shm/Address.antt =====
-- Relative addresses name the same place in every process, and the null address is kept apart.
use open_pa.Base.{refl, false, ℕ, ◌≡◌, ◌<◌, ◌+◌, ◌%◌, arith, ◌==◌, true, ◌↔◌}
use open_pa.Shm.{address_mod, asymm_null_val, asymm_init, rel_to_abs, abs_to_rel, is_rel_null}

module _ (base : ℕ) (b : base < address_mod) where
  -- With a base in range, the relative form of any absolute address in range leads back to it.
  pub rel_to_abs-abs_to_rel : (a : ℕ) → a < address_mod → rel_to_abs base (abs_to_rel base a) ≡ a
  unfolding rel_to_abs abs_to_rel
  rel_to_abs-abs_to_rel a h = omega arith

  pub abs_to_rel-rel_to_abs : (r : ℕ) → r < address_mod → abs_to_rel base (rel_to_abs base r) ≡ r
  unfolding rel_to_abs abs_to_rel
  abs_to_rel-rel_to_abs r h = omega arith

  pub rel_to_abs-injective :
      (r q : ℕ) → r < address_mod → q < address_mod → rel_to_abs base r ≡ rel_to_abs base q → r ≡ q
  unfolding rel_to_abs
  rel_to_abs-injective r q h k e = omega arith

  pub rel_to_abs-lt : (r : ℕ) → rel_to_abs base r < address_mod
  unfolding rel_to_abs
  rel_to_abs-lt r = omega arith

  pub abs_to_rel-lt : (a : ℕ) → abs_to_rel base a < address_mod
  unfolding abs_to_rel
  abs_to_rel-lt a = omega arith

  -- With a base in range, an absolute address in range has the null value as its relative form
  -- exactly if it is the base.
  pub abs_to_rel-null :
      (a : ℕ) → a < address_mod → (is_rel_null (abs_to_rel base a) ≡ true) ↔ (a ≡ base)
  unfolding abs_to_rel
  abs_to_rel-null a h = (λ e. ground arith, λ e. ground arith)

-- Two processes map the segment at bases in range: the relative address that one makes of the
-- place at an offset leads the other to the place at the same offset.
pub rel_shared :
    (base base' offset : ℕ)
    → base < address_mod
    → base' < address_mod
    → rel_to_abs base' (abs_to_rel base ((base + offset) % address_mod))
      ≡ (base' + offset) % address_mod
unfolding rel_to_abs abs_to_rel
rel_shared base base' offset b b' = omega arith

-- After a first call with any base but the null value, every later call is refused and changes
-- nothing.
pub asymm_init_twice :
    (base later : ℕ)
    → (base == asymm_null_val) ≡ false
    → asymm_init later (asymm_init base asymm_null_val).1 ≡ (16, base)
unfolding asymm_init
asymm_init_twice base later h = ground arith

-- A first call with the null value itself is not noticed: the next call succeeds.
pub asymm_init_null :
    (later : ℕ) → asymm_init later (asymm_init asymm_null_val asymm_null_val).1 ≡ (0, later)
unfolding asymm_init
asymm_init_null later = refl
