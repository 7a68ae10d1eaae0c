-- ===== src/Platform/GccIntrinsics.antt =====
-- src/primitives/opa_gcc_intrinsics.h: the `__sync` builtins of GCC, and emulations for the rest.
pub mod Atomic
use open_pa.Base.{true, ◌==◌, ◌≡◌, if◌then◌else◌, ℕ, Bool}
use open_pa.Primitives.{Primitives}
use open_pa.Emulated.{
  fetch_and_decr_int_by_faa, decr_int_by_fad, fetch_and_incr_int_by_faa, incr_int_by_fai,
  add_int_by_faa, swap_ptr_by_cas, swap_int_by_cas,
}
use open_pa.Base.Word.{sub32, add32}
use open_pa.Cell.{
  compare_exchange, pure, ◌>>=◌, ◌>>◌, fetch_modify, get, barrier, set, World, M, Fence,
}

unfoldable pub load_int : M ℕ
load_int = get

unfoldable pub store_int : ℕ → M (Unit {0})
store_int val = set val

unfoldable pub load_ptr : M ℕ
load_ptr = get

unfoldable pub store_ptr : ℕ → M (Unit {0})
store_ptr val = set val

-- The acquire and release variants call a builtin on a local variable, for its ordering.
abbrev test_and_set_local : M (Unit {0})
test_and_set_local = barrier Fence.sync_lock_test_and_set

abbrev lock_release_local : M (Unit {0})
lock_release_local = barrier Fence.sync_lock_release

abbrev sync_synchronize : M (Unit {0})
sync_synchronize = barrier Fence.sync_synchronize

unfoldable pub load_acquire_int : M ℕ
load_acquire_int = do tmp ← get; test_and_set_local; pure tmp

unfoldable pub store_release_int : ℕ → M (Unit {0})
store_release_int val = do lock_release_local; set val

unfoldable pub load_acquire_ptr : M ℕ
load_acquire_ptr = do tmp ← get; test_and_set_local; pure tmp

unfoldable pub store_release_ptr : ℕ → M (Unit {0})
store_release_ptr val = do lock_release_local; set val

-- The builtins, on `&ptr->v`. `__sync_lock_test_and_set` is an exchange on some targets only, which
-- configure finds out: then `is_swap` (SYNC_LOCK_TEST_AND_SET_IS_SWAP) is defined.
pub record Builtins : Type 0 where
  pub is_swap : Bool
  pub sync_fetch_and_add : ℕ → M ℕ
  pub sync_sub_and_fetch : ℕ → M ℕ
  pub sync_val_compare_and_swap : ℕ → ℕ → M ℕ
  pub sync_lock_test_and_set : ℕ → M ℕ
  pub adds : (v : ℕ) (w : World) → sync_fetch_and_add v w ≡ fetch_modify (λ p. add32 p v) w
  pub subs :
      (v : ℕ) (w : World)
      → sync_sub_and_fetch v w ≡ (do p ← fetch_modify (λ p. sub32 p v); pure (sub32 p v)) w
  pub compares :
      (old new : ℕ) (w : World) → sync_val_compare_and_swap old new w ≡ compare_exchange old new w
  pub swaps :
      is_swap ≡ true → (v : ℕ) (w : World) → sync_lock_test_and_set v w ≡ fetch_modify (λ _. v) w

module _ (b : Builtins) where
  unfoldable pub fetch_and_add_int : ℕ → M ℕ
  fetch_and_add_int val = b.sync_fetch_and_add val

  unfoldable pub decr_and_test_int : M Bool
  decr_and_test_int = do v ← b.sync_sub_and_fetch 1; pure (v == 0)

  unfoldable pub cas_ptr : ℕ → ℕ → M ℕ
  cas_ptr oldv newv = b.sync_val_compare_and_swap oldv newv

  unfoldable pub cas_int : ℕ → ℕ → M ℕ
  cas_int oldv newv = b.sync_val_compare_and_swap oldv newv

  unfoldable pub swap_ptr : ℕ → ℕ → M ℕ
  swap_ptr fuel val =
      if b.is_swap then b.sync_lock_test_and_set val else swap_ptr_by_cas load_ptr cas_ptr fuel val

  unfoldable pub swap_int : ℕ → ℕ → M ℕ
  swap_int fuel val =
      if b.is_swap then b.sync_lock_test_and_set val else swap_int_by_cas load_int cas_int fuel val

  -- The platform, with a bound on the rounds of its loops.
  unfoldable pub platform : ℕ → Primitives
  platform fuel = record {
    load_int = load_int;
    store_int = store_int;
    load_ptr = load_ptr;
    store_ptr = store_ptr;
    add_int = add_int_by_faa fetch_and_add_int;
    incr_int = incr_int_by_fai (fetch_and_incr_int_by_faa fetch_and_add_int);
    decr_int = decr_int_by_fad (fetch_and_decr_int_by_faa fetch_and_add_int);
    decr_and_test_int = decr_and_test_int;
    fetch_and_add_int = fetch_and_add_int;
    fetch_and_incr_int = fetch_and_incr_int_by_faa fetch_and_add_int;
    fetch_and_decr_int = fetch_and_decr_int_by_faa fetch_and_add_int;
    cas_ptr = cas_ptr;
    cas_int = cas_int;
    swap_ptr = swap_ptr fuel;
    swap_int = swap_int fuel;
    write_barrier = sync_synchronize;
    read_barrier = sync_synchronize;
    read_write_barrier = sync_synchronize;
    load_acquire_int = load_acquire_int;
    store_release_int = store_release_int;
    load_acquire_ptr = load_acquire_ptr;
    store_release_ptr = store_release_ptr;
    compiler_barrier = barrier Fence.compiler;
  }
