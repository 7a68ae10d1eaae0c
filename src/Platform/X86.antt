-- ===== src/Platform/X86.antt =====
-- src/primitives/opa_gcc_intel_32_64_ops.h with opa_gcc_intel_32_64_barrier.h: x86 and x86-64 by
-- locked instructions.
pub mod Atomic
use open_pa.Base.{◌==◌, ◌≡◌, Bool, ℕ}
use open_pa.Primitives.{Primitives}
use open_pa.Emulated.{fetch_and_decr_int_by_faa, fetch_and_incr_int_by_faa}
use open_pa.Base.Word.{sub32, add32}
use open_pa.Cell.{
  compare_exchange, fetch_modify, pure, World, get, set, ◌>>=◌, ◌>>◌, barrier, M, Fence,
}

unfoldable pub load_int : M ℕ
load_int = get

unfoldable pub store_int : ℕ → M (Unit {0})
store_int val = set val

unfoldable pub load_ptr : M ℕ
load_ptr = get

unfoldable pub store_ptr : ℕ → M (Unit {0})
store_ptr val = set val

abbrev compiler_barrier : M (Unit {0})
compiler_barrier = barrier Fence.compiler

unfoldable pub load_acquire_int : M ℕ
load_acquire_int = do tmp ← get; compiler_barrier; pure tmp

unfoldable pub store_release_int : ℕ → M (Unit {0})
store_release_int val = do compiler_barrier; set val

unfoldable pub load_acquire_ptr : M ℕ
load_acquire_ptr = do tmp ← get; compiler_barrier; pure tmp

unfoldable pub store_release_ptr : ℕ → M (Unit {0})
store_release_ptr val = do compiler_barrier; set val

-- The locked instructions on the variable: `xadd`, `cmpxchg` and `xchg` leave the value found in a
-- register, and `dec` leaves the zero flag of the new value for `setz`.
pub record Instructions : Type 0 where
  pub lock_add : ℕ → M (Unit {0})
  pub lock_inc : M (Unit {0})
  pub lock_dec : M Bool
  pub lock_xadd : ℕ → M ℕ
  pub lock_cmpxchg : ℕ → ℕ → M ℕ
  pub xchg : ℕ → M ℕ
  pub adds : (v : ℕ) (w : World) → lock_add v w ≡ (fetch_modify (λ p. add32 p v) >> pure tt) w
  pub incs : (w : World) → lock_inc w ≡ (fetch_modify (λ p. add32 p 1) >> pure tt) w
  pub decs :
      (w : World) → lock_dec w ≡ (do p ← fetch_modify (λ p. sub32 p 1); pure (sub32 p 1 == 0)) w
  pub xadds : (v : ℕ) (w : World) → lock_xadd v w ≡ fetch_modify (λ p. add32 p v) w
  pub compares : (old new : ℕ) (w : World) → lock_cmpxchg old new w ≡ compare_exchange old new w
  pub swaps : (v : ℕ) (w : World) → xchg v w ≡ fetch_modify (λ _. v) w

module _ (isa : Instructions) where
  unfoldable pub add_int : ℕ → M (Unit {0})
  add_int val = isa.lock_add val

  unfoldable pub incr_int : M (Unit {0})
  incr_int = isa.lock_inc

  unfoldable pub decr_int : M (Unit {0})
  decr_int = isa.lock_dec >> pure tt

  unfoldable pub decr_and_test_int : M Bool
  decr_and_test_int = do result ← isa.lock_dec; pure result

  unfoldable pub fetch_and_add_int : ℕ → M ℕ
  fetch_and_add_int val = isa.lock_xadd val

  unfoldable pub cas_ptr : ℕ → ℕ → M ℕ
  cas_ptr oldv newv = do prev ← isa.lock_cmpxchg oldv newv; pure prev

  unfoldable pub cas_int : ℕ → ℕ → M ℕ
  cas_int oldv newv = do prev ← isa.lock_cmpxchg oldv newv; pure prev

  unfoldable pub swap_ptr : ℕ → M ℕ
  swap_ptr val = isa.xchg val

  unfoldable pub swap_int : ℕ → M ℕ
  swap_int val = isa.xchg val

  -- The platform, with a bound on the rounds of its loops.
  unfoldable pub platform : ℕ → Primitives
  platform fuel = record {
    load_int = load_int;
    store_int = store_int;
    load_ptr = load_ptr;
    store_ptr = store_ptr;
    add_int = add_int;
    incr_int = incr_int;
    decr_int = decr_int;
    decr_and_test_int = decr_and_test_int;
    fetch_and_add_int = fetch_and_add_int;
    fetch_and_incr_int = fetch_and_incr_int_by_faa fetch_and_add_int;
    fetch_and_decr_int = fetch_and_decr_int_by_faa fetch_and_add_int;
    cas_ptr = cas_ptr;
    cas_int = cas_int;
    swap_ptr = swap_ptr;
    swap_int = swap_int;
    write_barrier = compiler_barrier;
    read_barrier = compiler_barrier;
    read_write_barrier = barrier Fence.mfence;
    load_acquire_int = load_acquire_int;
    store_release_int = store_release_int;
    load_acquire_ptr = load_acquire_ptr;
    store_release_ptr = store_release_ptr;
    compiler_barrier = compiler_barrier;
  }
