-- ===== src/Platform/Sun.antt =====
-- src/primitives/opa_sun_atomic_ops.h: the atomic_ops(3C) library of Solaris.
pub mod Atomic
use open_pa.Base.{◌==◌, ◌≡◌, Bool, ℕ}
use open_pa.Primitives.{Primitives}
use open_pa.Base.Word.{add32, sub32}
use open_pa.Cell.{
  compare_exchange, fetch_modify, pure, ◌>>=◌, barrier, World, ◌>>◌, get, set, M, Fence,
}

unfoldable pub load_int : M ℕ
load_int = get

unfoldable pub store_int : ℕ → M (Unit {0})
store_int val = set val

unfoldable pub load_ptr : M ℕ
load_ptr = get

unfoldable pub store_ptr : ℕ → M (Unit {0})
store_ptr val = set val

abbrev membar_enter : M (Unit {0})
membar_enter = barrier Fence.membar_enter

abbrev membar_exit : M (Unit {0})
membar_exit = barrier Fence.membar_exit

unfoldable pub load_acquire_int : M ℕ
load_acquire_int = do tmp ← get; membar_enter; pure tmp

unfoldable pub store_release_int : ℕ → M (Unit {0})
store_release_int val = do membar_exit; set val

unfoldable pub load_acquire_ptr : M ℕ
load_acquire_ptr = do tmp ← get; membar_enter; pure tmp

unfoldable pub store_release_ptr : ℕ → M (Unit {0})
store_release_ptr val = do membar_exit; set val

-- The library, on `&ptr->v`. The names with `_nv` return the new value.
pub record AtomicOps : Type 0 where
  pub atomic_add_int : ℕ → M (Unit {0})
  pub atomic_inc_uint : M (Unit {0})
  pub atomic_dec_uint : M (Unit {0})
  pub atomic_add_int_nv : ℕ → M ℕ
  pub atomic_inc_uint_nv : M ℕ
  pub atomic_dec_uint_nv : M ℕ
  pub atomic_cas_ptr : ℕ → ℕ → M ℕ
  pub atomic_cas_uint : ℕ → ℕ → M ℕ
  pub atomic_swap_ptr : ℕ → M ℕ
  pub atomic_swap_uint : ℕ → M ℕ
  pub adds : (v : ℕ) (w : World) → atomic_add_int v w ≡ (fetch_modify (λ p. add32 p v) >> pure tt) w
  pub incs : (w : World) → atomic_inc_uint w ≡ (fetch_modify (λ p. add32 p 1) >> pure tt) w
  pub decs : (w : World) → atomic_dec_uint w ≡ (fetch_modify (λ p. sub32 p 1) >> pure tt) w
  pub adds_nv :
      (v : ℕ) (w : World)
      → atomic_add_int_nv v w ≡ (do p ← fetch_modify (λ p. add32 p v); pure (add32 p v)) w
  pub incs_nv :
      (w : World)
      → atomic_inc_uint_nv w ≡ (do p ← fetch_modify (λ p. add32 p 1); pure (add32 p 1)) w
  pub decs_nv :
      (w : World)
      → atomic_dec_uint_nv w ≡ (do p ← fetch_modify (λ p. sub32 p 1); pure (sub32 p 1)) w
  pub compares_ptr :
      (old new : ℕ) (w : World) → atomic_cas_ptr old new w ≡ compare_exchange old new w
  pub compares_int :
      (old new : ℕ) (w : World) → atomic_cas_uint old new w ≡ compare_exchange old new w
  pub swaps_ptr : (v : ℕ) (w : World) → atomic_swap_ptr v w ≡ fetch_modify (λ _. v) w
  pub swaps_int : (v : ℕ) (w : World) → atomic_swap_uint v w ≡ fetch_modify (λ _. v) w

module _ (lib : AtomicOps) where
  unfoldable pub add_int : ℕ → M (Unit {0})
  add_int val = lib.atomic_add_int val

  unfoldable pub incr_int : M (Unit {0})
  incr_int = lib.atomic_inc_uint

  unfoldable pub decr_int : M (Unit {0})
  decr_int = lib.atomic_dec_uint

  unfoldable pub decr_and_test_int : M Bool
  decr_and_test_int = do nv ← lib.atomic_dec_uint_nv; pure (nv == 0)

  unfoldable pub fetch_and_add_int : ℕ → M ℕ
  fetch_and_add_int val = do nv ← lib.atomic_add_int_nv val; pure (sub32 nv val)

  unfoldable pub fetch_and_decr_int : M ℕ
  fetch_and_decr_int = do nv ← lib.atomic_dec_uint_nv; pure (add32 nv 1)

  unfoldable pub fetch_and_incr_int : M ℕ
  fetch_and_incr_int = do nv ← lib.atomic_inc_uint_nv; pure (sub32 nv 1)

  unfoldable pub cas_ptr : ℕ → ℕ → M ℕ
  cas_ptr oldv newv = lib.atomic_cas_ptr oldv newv

  unfoldable pub cas_int : ℕ → ℕ → M ℕ
  cas_int oldv newv = lib.atomic_cas_uint oldv newv

  unfoldable pub swap_ptr : ℕ → M ℕ
  swap_ptr val = lib.atomic_swap_ptr val

  unfoldable pub swap_int : ℕ → M ℕ
  swap_int val = lib.atomic_swap_uint val

  -- The platform, with a bound on the rounds of its loops.
  unfoldable pub platform : ℕ → Primitives
  platform fuel = record {
    load_int = load_int;
    store_int = store_int;
    load_ptr = load_ptr;
    store_ptr = store_ptr;
    add_int = add_int;
    incr_int = incr_int;
    decr_int = decr_int;
    decr_and_test_int = decr_and_test_int;
    fetch_and_add_int = fetch_and_add_int;
    fetch_and_incr_int = fetch_and_incr_int;
    fetch_and_decr_int = fetch_and_decr_int;
    cas_ptr = cas_ptr;
    cas_int = cas_int;
    swap_ptr = swap_ptr;
    swap_int = swap_int;
    write_barrier = barrier Fence.membar_producer;
    read_barrier = barrier Fence.membar_consumer;
    read_write_barrier = barrier Fence.membar_consumer >> barrier Fence.membar_producer;
    load_acquire_int = load_acquire_int;
    store_release_int = store_release_int;
    load_acquire_ptr = load_acquire_ptr;
    store_release_ptr = store_release_ptr;
    compiler_barrier = barrier Fence.compiler;
  }
