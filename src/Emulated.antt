-- ===== src/Emulated.antt =====
-- src/primitives/opa_emulated.h: operations emulated by others.
--
-- A platform's header includes this file and takes from it what its instructions lack. The operation
-- that an emulation calls is a parameter. The loops run on fuel.
pub mod ByLlsc
pub mod ByCas
pub mod Retries
use open_pa.Base.{ℕ, Bool, not, ◌==◌, if◌then◌else◌}
use open_pa.Base.Word.{add32, minus_one}
use open_pa.Cell.{M, pure, ◌>>=◌, ◌>>◌}
use open_pa.Cell.Loop.{do_while}

-- Emulating using LL/SC. The first round finds `prev` uninitialised, and does not read it.
module _ (ll_int : M ℕ) (sc_int : ℕ → M Bool) (fuel : ℕ) where
  unfoldable pub fetch_and_add_int_by_llsc : ℕ → M ℕ
  fetch_and_add_int_by_llsc val =
      do_while fuel (λ _. ll_int) (λ prev. do ok ← sc_int (add32 prev val); pure (not ok)) 0

  unfoldable pub add_int_by_llsc : ℕ → M (Unit {0})
  add_int_by_llsc val = fetch_and_add_int_by_llsc val >> pure tt

  unfoldable pub incr_int_by_llsc : M (Unit {0})
  incr_int_by_llsc = add_int_by_llsc 1

  unfoldable pub decr_int_by_llsc : M (Unit {0})
  decr_int_by_llsc = add_int_by_llsc minus_one

  unfoldable pub fetch_and_decr_int_by_llsc : M ℕ
  fetch_and_decr_int_by_llsc = fetch_and_add_int_by_llsc minus_one

  unfoldable pub fetch_and_incr_int_by_llsc : M ℕ
  fetch_and_incr_int_by_llsc = fetch_and_add_int_by_llsc 1

  unfoldable pub decr_and_test_int_by_llsc : M Bool
  decr_and_test_int_by_llsc = do prev ← fetch_and_decr_int_by_llsc; pure (prev == 1)

  unfoldable pub cas_int_by_llsc : ℕ → ℕ → M ℕ
  cas_int_by_llsc oldv newv =
      do_while fuel (λ _. ll_int)
        (λ prev. if prev == oldv then (do ok ← sc_int newv; pure (not ok)) else pure Bool.false) 0

  unfoldable pub swap_int_by_llsc : ℕ → M ℕ
  swap_int_by_llsc val = do_while fuel (λ _. ll_int) (λ prev. do ok ← sc_int val; pure (not ok)) 0

module _ (ll_ptr : M ℕ) (sc_ptr : ℕ → M Bool) (fuel : ℕ) where
  unfoldable pub cas_ptr_by_llsc : ℕ → ℕ → M ℕ
  cas_ptr_by_llsc oldv newv =
      do_while fuel (λ _. ll_ptr)
        (λ prev. if prev == oldv then (do ok ← sc_ptr newv; pure (not ok)) else pure Bool.false) 0

  unfoldable pub swap_ptr_by_llsc : ℕ → M ℕ
  swap_ptr_by_llsc val = do_while fuel (λ _. ll_ptr) (λ prev. do ok ← sc_ptr val; pure (not ok)) 0

-- The two locals of the loops on compare-and-swap.
pub record Locals : Type 0 where
  pub cmp : ℕ
  pub prev : ℕ

-- `cmp = prev; prev = OPA_cas(ptr, cmp, f(prev));`
abbrev pub cas_round : (ℕ → ℕ → M ℕ) → (ℕ → ℕ) → Locals → M Locals
cas_round cas f l = do prev ← cas l.prev (f l.prev); pure (record { cmp = l.prev; prev = prev })

-- `prev != cmp`
abbrev pub cas_again : Locals → M Bool
cas_again l = pure (not (l.prev == l.cmp))

module _ (load_int : M ℕ) (cas_int : ℕ → ℕ → M ℕ) (fuel : ℕ) where
  unfoldable pub fetch_and_add_int_by_cas : ℕ → M ℕ
  fetch_and_add_int_by_cas val = do
    prev ← load_int
    l ←
        do_while fuel (cas_round cas_int (λ p. add32 p val)) cas_again
          (record { cmp = 0; prev = prev })
    pure l.prev

  -- Swap using CAS
  unfoldable pub swap_int_by_cas : ℕ → M ℕ
  swap_int_by_cas val = do
    prev ← load_int
    l ← do_while fuel (cas_round cas_int (λ _. val)) cas_again (record { cmp = 0; prev = prev })
    pure l.prev

module _ (load_ptr : M ℕ) (cas_ptr : ℕ → ℕ → M ℕ) (fuel : ℕ) where
  unfoldable pub swap_ptr_by_cas : ℕ → M ℕ
  swap_ptr_by_cas val = do
    prev ← load_ptr
    l ← do_while fuel (cas_round cas_ptr (λ _. val)) cas_again (record { cmp = 0; prev = prev })
    pure l.prev

module _ (fetch_and_add_int : ℕ → M ℕ) where
  unfoldable pub fetch_and_incr_int_by_faa : M ℕ
  fetch_and_incr_int_by_faa = fetch_and_add_int 1

  unfoldable pub fetch_and_decr_int_by_faa : M ℕ
  fetch_and_decr_int_by_faa = fetch_and_add_int minus_one

  unfoldable pub add_int_by_faa : ℕ → M (Unit {0})
  add_int_by_faa val = fetch_and_add_int val >> pure tt

  -- These two return the value that they replaced, where the interface returns nothing.
  unfoldable pub incr_int_by_faa : M ℕ
  incr_int_by_faa = fetch_and_add_int 1

  unfoldable pub decr_int_by_faa : M ℕ
  decr_int_by_faa = fetch_and_add_int minus_one

module _ (fetch_and_decr_int : M ℕ) where
  unfoldable pub decr_and_test_int_by_fad : M Bool
  decr_and_test_int_by_fad = do prev ← fetch_and_decr_int; pure (prev == 1)

  unfoldable pub decr_int_by_fad : M (Unit {0})
  decr_int_by_fad = fetch_and_decr_int >> pure tt

unfoldable pub incr_int_by_fai : M ℕ → M (Unit {0})
incr_int_by_fai fetch_and_incr_int = fetch_and_incr_int >> pure tt

unfoldable pub incr_int_by_add : (ℕ → M (Unit {0})) → M (Unit {0})
incr_int_by_add add_int = add_int 1

unfoldable pub decr_int_by_add : (ℕ → M (Unit {0})) → M (Unit {0})
decr_int_by_add add_int = add_int minus_one
