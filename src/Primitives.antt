-- ===== src/Primitives.antt =====
-- src/opa_primitives.h: the operations that each platform's header has to provide, and what they
-- promise. A platform is a value of `Primitives`, made for a bound on the rounds of its loops.
pub mod Derived
pub mod Reference
use open_pa.Base.{ℕ, ◌≡◌, ◌^◌, ◌<◌, Bool, true, false, ◌==◌, if◌then◌else◌, List, ◌∷◌}
use open_pa.Base.Word.{add32, minus_one}
use open_pa.Cell.{World, M, pure, ◌>>=◌, ◌>>◌, Access, read, wrote, fence, Fence}
use open_pa.Cell.Laws.{InRange, Applied, Observed, Swapped}

-- The functions and macros that the header asks of a platform, in its order. A C truth value is a
-- `Bool`; the load-link and store-conditional pairs are in the platforms that have them.
pub record Primitives : Type 0 where
  pub load_int : M ℕ
  pub store_int : ℕ → M (Unit {0})
  pub load_ptr : M ℕ
  pub store_ptr : ℕ → M (Unit {0})
  pub add_int : ℕ → M (Unit {0})
  pub incr_int : M (Unit {0})
  pub decr_int : M (Unit {0})
  pub decr_and_test_int : M Bool
  pub fetch_and_add_int : ℕ → M ℕ
  pub fetch_and_incr_int : M ℕ
  pub fetch_and_decr_int : M ℕ
  pub cas_ptr : ℕ → ℕ → M ℕ
  pub cas_int : ℕ → ℕ → M ℕ
  pub swap_ptr : ℕ → M ℕ
  pub swap_int : ℕ → M ℕ
  pub write_barrier : M (Unit {0})
  pub read_barrier : M (Unit {0})
  pub read_write_barrier : M (Unit {0})
  pub load_acquire_int : M ℕ
  pub store_release_int : ℕ → M (Unit {0})
  pub load_acquire_ptr : M ℕ
  pub store_release_ptr : ℕ → M (Unit {0})
  pub compiler_barrier : M (Unit {0})

-- A call of an operation on the variable.
pub data Op : Type 0 where
  load_int load_ptr load_acquire_int load_acquire_ptr : Op
  store_int store_ptr store_release_int store_release_ptr : (val : ℕ) → Op
  add_int fetch_and_add_int : (val : ℕ) → Op
  incr_int decr_int decr_and_test_int fetch_and_incr_int fetch_and_decr_int : Op
  cas_int cas_ptr : (oldv newv : ℕ) → Op
  swap_int swap_ptr : (val : ℕ) → Op

abbrev pub no_result : M (Unit {0}) → M ℕ
no_result m = m >> pure 0

abbrev pub truth : Bool → ℕ
truth b = if b then 1 else 0

-- The call, with 0 for the result of a function that returns nothing.
unfoldable pub perform : Primitives → Op → M ℕ
perform p load_int = p.load_int
perform p load_ptr = p.load_ptr
perform p load_acquire_int = p.load_acquire_int
perform p load_acquire_ptr = p.load_acquire_ptr
perform p (store_int v) = no_result (p.store_int v)
perform p (store_ptr v) = no_result (p.store_ptr v)
perform p (store_release_int v) = no_result (p.store_release_int v)
perform p (store_release_ptr v) = no_result (p.store_release_ptr v)
perform p (add_int v) = no_result (p.add_int v)
perform p (fetch_and_add_int v) = p.fetch_and_add_int v
perform p incr_int = no_result p.incr_int
perform p decr_int = no_result p.decr_int
perform p decr_and_test_int = do b ← p.decr_and_test_int; pure (truth b)
perform p fetch_and_incr_int = p.fetch_and_incr_int
perform p fetch_and_decr_int = p.fetch_and_decr_int
perform p (cas_int old new) = p.cas_int old new
perform p (cas_ptr old new) = p.cas_ptr old new
perform p (swap_int v) = p.swap_int v
perform p (swap_ptr v) = p.swap_ptr v

-- `int` has 32 bits on every platform; the pointers' modulus is a parameter.
abbrev pub int_mod : ℕ
int_mod = 2 ^ 32

abbrev pub modulus : ℕ → Op → ℕ
modulus m load_ptr = m
modulus m load_acquire_ptr = m
modulus m (store_ptr _) = m
modulus m (store_release_ptr _) = m
modulus m (cas_ptr _ _) = m
modulus m (swap_ptr _) = m
modulus m _ = int_mod

-- The values that a call stores are of the variable's type.
abbrev pub WellTyped : ℕ → Op → Type 0
WellTyped m (store_int v) = v < int_mod
WellTyped m (store_ptr v) = v < m
WellTyped m (store_release_int v) = v < int_mod
WellTyped m (store_release_ptr v) = v < m
WellTyped m (cas_int _ new) = new < int_mod
WellTyped m (cas_ptr _ new) = new < m
WellTyped m (swap_int v) = v < int_mod
WellTyped m (swap_ptr v) = v < m
WellTyped m _ = Unit

-- The value that a call compares with is of the variable's type.
abbrev pub Compares : ℕ → Op → Type 0
Compares m (cas_int old _) = old < int_mod
Compares m (cas_ptr old _) = old < m
Compares m _ = Unit

-- An operation that returns nothing and has replaced some value `prev` by `f prev`.
abbrev pub Updated : ℕ → (ℕ → ℕ) → World → ℕ → World → Type 0
Updated m f w r w' = (prev : ℕ) × (r ≡ 0) × Applied m f w prev w'

-- The last access but for one fence is the load; a fence and then the store are the last.
abbrev pub LoadThenFence : ℕ → World → Type 0
LoadThenFence r w' = (k : Fence) × (t : List Access) × (w'.trace ≡ fence k ∷ read r ∷ t)

abbrev pub FenceThenStore : ℕ → World → Type 0
FenceThenStore v w' =
    (k : Fence) × (old : ℕ) × (t : List Access) × (w'.trace ≡ wrote old v ∷ fence k ∷ t)

-- What a call promises: atomic, with the documented result.
abbrev pub Meets : ℕ → Op → World → ℕ → World → Type 0
Meets m load_int w r w' = Observed int_mod w r w'
Meets m load_ptr w r w' = Observed m w r w'
Meets m load_acquire_int w r w' = Observed int_mod w r w' × LoadThenFence r w'
Meets m load_acquire_ptr w r w' = Observed m w r w' × LoadThenFence r w'
Meets m (store_int v) w r w' = Updated int_mod (λ _. v) w r w'
Meets m (store_ptr v) w r w' = Updated m (λ _. v) w r w'
Meets m (store_release_int v) w r w' = Updated int_mod (λ _. v) w r w' × FenceThenStore v w'
Meets m (store_release_ptr v) w r w' = Updated m (λ _. v) w r w' × FenceThenStore v w'
Meets m (add_int v) w r w' = Updated int_mod (λ p. add32 p v) w r w'
Meets m (fetch_and_add_int v) w r w' = Applied int_mod (λ p. add32 p v) w r w'
Meets m incr_int w r w' = Updated int_mod (λ p. add32 p 1) w r w'
Meets m decr_int w r w' = Updated int_mod (λ p. add32 p minus_one) w r w'
Meets m decr_and_test_int w r w' =
    (prev : ℕ) × (r ≡ truth (prev == 1)) × Applied int_mod (λ p. add32 p minus_one) w prev w'
Meets m fetch_and_incr_int w r w' = Applied int_mod (λ p. add32 p 1) w r w'
Meets m fetch_and_decr_int w r w' = Applied int_mod (λ p. add32 p minus_one) w r w'
Meets m (cas_int old new) w r w' = Swapped int_mod old new w r w'
Meets m (cas_ptr old new) w r w' = Swapped m old new w r w'
Meets m (swap_int v) w r w' = Applied int_mod (λ _. v) w r w'
Meets m (swap_ptr v) w r w' = Applied m (λ _. v) w r w'
