-- ===== src/Platform/Sicortex.antt =====
-- src/primitives/opa_gcc_sicortex.h: MIPS. Each read-modify-write is a retry loop in assembly.
pub mod Atomic
use open_pa.Base.{◌<◌, ◌^◌, ◌%◌, ◌+◌, ℕ, ◌≡◌, ◌==◌, Bool, not, if◌then◌else◌}
use open_pa.Cell.Laws.{InRange}
use open_pa.Base.Word.{Size, bytes_4, bytes_8, by_size, add32, minus_one}
use open_pa.Cell.{
  World, M, pure, ◌>>=◌, ◌>>◌, get, set, barrier, Fence, load_link, store_conditional,
}
use open_pa.Cell.Loop.{do_while}
use open_pa.Primitives.{Primitives}

unfoldable pub load_int : M ℕ
load_int = get

unfoldable pub store_int : ℕ → M (Unit {0})
store_int val = set val

unfoldable pub load_ptr : M ℕ
load_ptr = get

unfoldable pub store_ptr : ℕ → M (Unit {0})
store_ptr val = set val

unfoldable pub load_acquire_int : M ℕ
load_acquire_int = do tmp ← get; barrier Fence.mips_sync; pure tmp

unfoldable pub store_release_int : ℕ → M (Unit {0})
store_release_int val = do barrier Fence.mips_sync; set val

unfoldable pub load_acquire_ptr : M ℕ
load_acquire_ptr = do tmp ← get; barrier Fence.mips_sync; pure tmp

unfoldable pub store_release_ptr : ℕ → M (Unit {0})
store_release_ptr val = do barrier Fence.mips_sync; set val

-- The instructions, for words of 4 and of 8 bytes, on an object of a size; what they do on one of another
-- size, or with a value that does not fit, is left open. And the flag ICE9A_LLSC_WAR for a faulty chip,
-- which the header sets to 0. The answer of a store-conditional is what it leaves in its register.
pub record Instructions : Type 0 where
  pub ice9a_llsc_war : Bool
  pub ll : Size → M ℕ
  pub sc : Size → ℕ → M ℕ
  pub lld : Size → M ℕ
  pub scd : Size → ℕ → M ℕ
  pub ll_links : (w : World) → InRange (2 ^ 32) w → ll bytes_4 w ≡ load_link w
  pub sc_stores :
      (v : ℕ) (w : World)
      → v < 2 ^ 32
      → sc bytes_4 v w ≡ (do ok ← store_conditional v; pure (if ok then 1 else 0)) w
  pub lld_links : (w : World) → InRange (2 ^ 64) w → lld bytes_8 w ≡ load_link w
  pub scd_stores :
      (v : ℕ) (w : World)
      → v < 2 ^ 64
      → scd bytes_8 v w ≡ (do ok ← store_conditional v; pure (if ok then 1 else 0)) w

-- `daddu` on 64-bit patterns.
unfoldable pub add64 : ℕ → ℕ → ℕ
add64 a b = (a + b) % 2 ^ 64

module _ (isa : Instructions) where
  -- The functions take the size of the object that their pointer is to. The load at the label, twice on a faulty chip.
  unfoldable pub link_4 : Size → M ℕ
  link_4 size = if isa.ice9a_llsc_war then isa.ll size >> isa.ll size else isa.ll size

  unfoldable pub link_8 : Size → M ℕ
  link_8 size = if isa.ice9a_llsc_war then isa.lld size >> isa.lld size else isa.lld size

  -- `sc` and then `beqz`: go back if the register is 0.
  unfoldable pub stored_4 : Size → ℕ → M Bool
  stored_4 size val = do temp ← isa.sc size val; pure (not (temp == 0))

  unfoldable pub stored_8 : Size → ℕ → M Bool
  stored_8 size val = do temp ← isa.scd size val; pure (not (temp == 0))

  unfoldable pub shmemi_fetch_add_4 : Size → ℕ → ℕ → M ℕ
  shmemi_fetch_add_4 size fuel inc =
      do_while fuel (λ _. link_4 size)
        (λ result. do ok ← stored_4 size (add32 result inc); pure (not ok)) 0

  unfoldable pub shmemi_fetch_add_8 : Size → ℕ → ℕ → M ℕ
  shmemi_fetch_add_8 size fuel inc =
      do_while fuel (λ _. link_8 size)
        (λ result. do ok ← stored_8 size (add64 result inc); pure (not ok)) 0

  unfoldable pub shmemi_swap_4 : Size → ℕ → ℕ → M ℕ
  shmemi_swap_4 size fuel val =
      do_while fuel (λ _. link_4 size) (λ result. do ok ← stored_4 size val; pure (not ok)) 0

  unfoldable pub shmemi_swap_8 : Size → ℕ → ℕ → M ℕ
  shmemi_swap_8 size fuel val =
      do_while fuel (λ _. link_8 size) (λ result. do ok ← stored_8 size val; pure (not ok)) 0

  -- `bne` leaves the loop when the value found is another.
  unfoldable pub shmemi_cswap_4 : Size → ℕ → (expect val : ℕ) → M ℕ
  shmemi_cswap_4 size fuel expect val =
      do_while fuel (λ _. link_4 size)
        (λ result.
          if result == expect then (do ok ← stored_4 size val; pure (not ok)) else pure Bool.false)
        0

  unfoldable pub shmemi_cswap_8 : Size → ℕ → (expect val : ℕ) → M ℕ
  shmemi_cswap_8 size fuel expect val =
      do_while fuel (λ _. link_8 size)
        (λ result.
          if result == expect then (do ok ← stored_8 size val; pure (not ok)) else pure Bool.false)
        0

  module _ (fuel : ℕ) where
    unfoldable pub add_int : ℕ → M (Unit {0})
    add_int val = shmemi_fetch_add_4 bytes_4 fuel val >> pure tt

    -- OPA_SIZEOF_VOID_P selects the branch.
    unfoldable pub cas_ptr : Size → (oldv newv : ℕ) → M ℕ
    cas_ptr size oldv newv =
        by_size size (shmemi_cswap_4 size fuel oldv newv) (shmemi_cswap_8 size fuel oldv newv)

    unfoldable pub cas_int : (oldv newv : ℕ) → M ℕ
    cas_int oldv newv = shmemi_cswap_4 bytes_4 fuel oldv newv

    unfoldable pub decr_int : M (Unit {0})
    decr_int = shmemi_fetch_add_4 bytes_4 fuel minus_one >> pure tt

    unfoldable pub decr_and_test_int : M Bool
    decr_and_test_int = do old ← shmemi_fetch_add_4 bytes_4 fuel minus_one; pure (old == 1)

    unfoldable pub fetch_and_add_int : ℕ → M ℕ
    fetch_and_add_int val = shmemi_fetch_add_4 bytes_4 fuel val

    unfoldable pub fetch_and_decr_int : M ℕ
    fetch_and_decr_int = shmemi_fetch_add_4 bytes_4 fuel minus_one

    unfoldable pub fetch_and_incr_int : M ℕ
    fetch_and_incr_int = shmemi_fetch_add_4 bytes_4 fuel 1

    unfoldable pub incr_int : M (Unit {0})
    incr_int = shmemi_fetch_add_4 bytes_4 fuel 1 >> pure tt

    unfoldable pub swap_ptr : Size → ℕ → M ℕ
    swap_ptr size val = by_size size (shmemi_swap_4 size fuel val) (shmemi_swap_8 size fuel val)

    unfoldable pub swap_int : ℕ → M ℕ
    swap_int val = shmemi_swap_4 bytes_4 fuel val

    -- The platform, for a size of the pointers, with a bound on the rounds of its loops.
    unfoldable pub platform : Size → Primitives
    platform size = record {
      load_int = load_int;
      store_int = store_int;
      load_ptr = load_ptr;
      store_ptr = store_ptr;
      add_int = add_int;
      incr_int = incr_int;
      decr_int = decr_int;
      decr_and_test_int = decr_and_test_int;
      fetch_and_add_int = fetch_and_add_int;
      fetch_and_incr_int = fetch_and_incr_int;
      fetch_and_decr_int = fetch_and_decr_int;
      cas_ptr = cas_ptr size;
      cas_int = cas_int;
      swap_ptr = swap_ptr size;
      swap_int = swap_int;
      write_barrier = barrier Fence.mips_sync;
      read_barrier = barrier Fence.mips_sync;
      read_write_barrier = barrier Fence.mips_sync;
      load_acquire_int = load_acquire_int;
      store_release_int = store_release_int;
      load_acquire_ptr = load_acquire_ptr;
      store_release_ptr = store_release_ptr;
      compiler_barrier = barrier Fence.compiler;
    }
