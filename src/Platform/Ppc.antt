-- ===== src/Platform/Ppc.antt =====
-- src/primitives/opa_gcc_ppc.h: PowerPC. Loads and stores are single instructions; all else is built
-- from load-link and store-conditional by the emulations.
pub mod Atomic
use open_pa.Base.{◌<◌, ◌^◌, ℕ, ◌≡◌, Bool, true, false, if◌then◌else◌}
use open_pa.Cell.{
  World, M, pure, ◌>>=◌, ◌>>◌, get, set, barrier, Fence, load_link, store_conditional,
}
use open_pa.Base.Word.{Size, bytes_4, bytes_8, by_size}
use open_pa.Cell.Laws.{InRange}
use open_pa.Primitives.{Primitives}
use open_pa.Emulated.{
  add_int_by_llsc, incr_int_by_llsc, decr_int_by_llsc, decr_and_test_int_by_llsc,
  fetch_and_add_int_by_llsc, fetch_and_decr_int_by_llsc, fetch_and_incr_int_by_llsc,
  cas_ptr_by_llsc, cas_int_by_llsc, swap_ptr_by_llsc, swap_int_by_llsc,
}

unfoldable pub load_int : M ℕ
load_int = get

unfoldable pub store_int : ℕ → M (Unit {0})
store_int val = set val

unfoldable pub load_ptr : M ℕ
load_ptr = get

unfoldable pub store_ptr : ℕ → M (Unit {0})
store_ptr val = set val

-- The helper macros, and the barriers made of them.
abbrev ppc_lwsync : M (Unit {0})
ppc_lwsync = barrier Fence.lwsync

abbrev ppc_hwsync : M (Unit {0})
ppc_hwsync = barrier Fence.hwsync

abbrev ppc_eieio : M (Unit {0})
ppc_eieio = barrier Fence.eieio

unfoldable pub load_acquire_int : M ℕ
load_acquire_int = do tmp ← get; ppc_lwsync; pure tmp

unfoldable pub store_release_int : ℕ → M (Unit {0})
store_release_int val = do ppc_lwsync; set val

unfoldable pub load_acquire_ptr : M ℕ
load_acquire_ptr = do tmp ← get; ppc_lwsync; pure tmp

unfoldable pub store_release_ptr : ℕ → M (Unit {0})
store_release_ptr val = do ppc_lwsync; set val

-- The instructions, on an object of a size: those with `w` are for 4 bytes, those with `d` for 8. What they do
-- on an object of another size is left open. The stores answer by the condition bit that `beq` tests.
pub record Instructions : Type 0 where
  pub lwarx : Size → M ℕ
  pub stwcx : Size → ℕ → M Bool
  pub ldarx : Size → M ℕ
  pub stdcx : Size → ℕ → M Bool
  pub lwarx_links : (w : World) → InRange (2 ^ 32) w → lwarx bytes_4 w ≡ load_link w
  pub stwcx_stores : (v : ℕ) (w : World) → v < 2 ^ 32 → stwcx bytes_4 v w ≡ store_conditional v w
  pub ldarx_links : (w : World) → InRange (2 ^ 64) w → ldarx bytes_8 w ≡ load_link w
  pub stdcx_stores : (v : ℕ) (w : World) → v < 2 ^ 64 → stdcx bytes_8 v w ≡ store_conditional v w

module _ (isa : Instructions) where
  unfoldable pub ll_int : M ℕ
  ll_int = isa.lwarx bytes_4

  -- `ret` is 1, and reset to 0 unless the branch is taken.
  unfoldable pub sc_int : ℕ → M Bool
  sc_int val = do eq ← isa.stwcx bytes_4 val; if eq then pure true else pure false

  -- OPA_SIZEOF_VOID_P selects the suffix.
  unfoldable pub ll_ptr : Size → M ℕ
  ll_ptr size = by_size size (isa.lwarx size) (isa.ldarx size)

  unfoldable pub sc_ptr : Size → ℕ → M Bool
  sc_ptr size val = do
    eq ← by_size size (isa.stwcx size val) (isa.stdcx size val)
    if eq then pure true else pure false

  -- The platform, for a size of the pointers, with a bound on the rounds of its loops.
  unfoldable pub platform : Size → ℕ → Primitives
  platform size fuel = record {
    load_int = load_int;
    store_int = store_int;
    load_ptr = load_ptr;
    store_ptr = store_ptr;
    add_int = add_int_by_llsc ll_int sc_int fuel;
    incr_int = incr_int_by_llsc ll_int sc_int fuel;
    decr_int = decr_int_by_llsc ll_int sc_int fuel;
    decr_and_test_int = decr_and_test_int_by_llsc ll_int sc_int fuel;
    fetch_and_add_int = fetch_and_add_int_by_llsc ll_int sc_int fuel;
    fetch_and_incr_int = fetch_and_incr_int_by_llsc ll_int sc_int fuel;
    fetch_and_decr_int = fetch_and_decr_int_by_llsc ll_int sc_int fuel;
    cas_ptr = cas_ptr_by_llsc (ll_ptr size) (sc_ptr size) fuel;
    cas_int = cas_int_by_llsc ll_int sc_int fuel;
    swap_ptr = swap_ptr_by_llsc (ll_ptr size) (sc_ptr size) fuel;
    swap_int = swap_int_by_llsc ll_int sc_int fuel;
    write_barrier = ppc_eieio;
    read_barrier = ppc_lwsync;
    read_write_barrier = ppc_hwsync;
    load_acquire_int = load_acquire_int;
    store_release_int = store_release_int;
    load_acquire_ptr = load_acquire_ptr;
    store_release_ptr = store_release_ptr;
    compiler_barrier = barrier Fence.compiler;
  }
