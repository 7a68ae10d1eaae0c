-- ===== src/Platform/Arm.antt =====
-- src/primitives/opa_gcc_arm.h: ARMv7. Loads and stores are single instructions; all else is built
-- from load-link and store-conditional by the emulations.
pub mod Atomic
use open_pa.Base.{◌==◌, ◌<◌, ◌^◌, ℕ, ◌≡◌, Bool, true, false, if◌then◌else◌}
use open_pa.Cell.{
  World, M, pure, ◌>>=◌, ◌>>◌, get, set, barrier, Fence, load_link, store_conditional,
}
use open_pa.Base.Word.{Size, bytes_4, bytes_8, by_size}
use open_pa.Cell.Laws.{InRange}
use open_pa.Primitives.{Primitives}
use open_pa.Emulated.{
  add_int_by_llsc, incr_int_by_llsc, decr_int_by_llsc, decr_and_test_int_by_llsc,
  fetch_and_add_int_by_llsc, fetch_and_decr_int_by_llsc, fetch_and_incr_int_by_llsc,
  cas_ptr_by_llsc, cas_int_by_llsc, swap_ptr_by_llsc, swap_int_by_llsc,
}

unfoldable pub load_int : M ℕ
load_int = get

unfoldable pub store_int : ℕ → M (Unit {0})
store_int val = set val

unfoldable pub load_ptr : M ℕ
load_ptr = get

unfoldable pub store_ptr : ℕ → M (Unit {0})
store_ptr val = set val

-- The helper macros, and the barriers made of them.
abbrev arm_dmb : M (Unit {0})
arm_dmb = barrier Fence.dmb

abbrev arm_dsb : M (Unit {0})
arm_dsb = barrier Fence.dsb

unfoldable pub load_acquire_int : M ℕ
load_acquire_int = do tmp ← get; arm_dsb; pure tmp

unfoldable pub store_release_int : ℕ → M (Unit {0})
store_release_int val = do arm_dsb; set val

unfoldable pub load_acquire_ptr : M ℕ
load_acquire_ptr = do tmp ← get; arm_dsb; pure tmp

unfoldable pub store_release_ptr : ℕ → M (Unit {0})
store_release_ptr val = do arm_dsb; set val

-- The instructions, on an object of a size: `d` is for 8 bytes, and they are for 4 without. What they do on
-- an object of another size is left open. The stores answer 0 on success.
pub record Instructions : Type 0 where
  pub ldrex : Size → M ℕ
  pub strex : Size → ℕ → M ℕ
  pub ldrexd : Size → M ℕ
  pub strexd : Size → ℕ → M ℕ
  pub ldrex_links : (w : World) → InRange (2 ^ 32) w → ldrex bytes_4 w ≡ load_link w
  pub strex_stores :
      (v : ℕ) (w : World)
      → v < 2 ^ 32
      → strex bytes_4 v w ≡ (do ok ← store_conditional v; pure (if ok then 0 else 1)) w
  pub ldrexd_links : (w : World) → InRange (2 ^ 64) w → ldrexd bytes_8 w ≡ load_link w
  pub strexd_stores :
      (v : ℕ) (w : World)
      → v < 2 ^ 64
      → strexd bytes_8 v w ≡ (do ok ← store_conditional v; pure (if ok then 0 else 1)) w

module _ (isa : Instructions) where
  unfoldable pub ll_int : M ℕ
  ll_int = isa.ldrex bytes_4

  -- `return !ret`
  unfoldable pub sc_int : ℕ → M Bool
  sc_int val = do ret ← isa.strex bytes_4 val; pure (ret == 0)

  -- OPA_SIZEOF_VOID_P selects the suffix; ARMv7 has pointers of 4 bytes.
  unfoldable pub ll_ptr : Size → M ℕ
  ll_ptr size = by_size size (isa.ldrex size) (isa.ldrexd size)

  unfoldable pub sc_ptr : Size → ℕ → M Bool
  sc_ptr size val = do
    ret ← by_size size (isa.strex size val) (isa.strexd size val)
    pure (ret == 0)

  -- The platform, for a size of the pointers, with a bound on the rounds of its loops.
  unfoldable pub platform : Size → ℕ → Primitives
  platform size fuel = record {
    load_int = load_int;
    store_int = store_int;
    load_ptr = load_ptr;
    store_ptr = store_ptr;
    add_int = add_int_by_llsc ll_int sc_int fuel;
    incr_int = incr_int_by_llsc ll_int sc_int fuel;
    decr_int = decr_int_by_llsc ll_int sc_int fuel;
    decr_and_test_int = decr_and_test_int_by_llsc ll_int sc_int fuel;
    fetch_and_add_int = fetch_and_add_int_by_llsc ll_int sc_int fuel;
    fetch_and_incr_int = fetch_and_incr_int_by_llsc ll_int sc_int fuel;
    fetch_and_decr_int = fetch_and_decr_int_by_llsc ll_int sc_int fuel;
    cas_ptr = cas_ptr_by_llsc (ll_ptr size) (sc_ptr size) fuel;
    cas_int = cas_int_by_llsc ll_int sc_int fuel;
    swap_ptr = swap_ptr_by_llsc (ll_ptr size) (sc_ptr size) fuel;
    swap_int = swap_int_by_llsc ll_int sc_int fuel;
    write_barrier = arm_dsb;
    read_barrier = arm_dmb;
    read_write_barrier = arm_dsb;
    load_acquire_int = load_acquire_int;
    store_release_int = store_release_int;
    load_acquire_ptr = load_acquire_ptr;
    store_release_ptr = store_release_ptr;
    compiler_barrier = barrier Fence.compiler;
  }
