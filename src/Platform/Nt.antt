-- ===== src/Platform/Nt.antt =====
-- src/primitives/opa_nt_intrinsics.h: the Interlocked intrinsics of Microsoft's compilers.
pub mod Atomic
use open_pa.Base.{◌<◌, ◌^◌, ◌%◌, ◌==◌, ◌≡◌, if◌then◌else◌, ℕ, Bool}
use open_pa.Primitives.{Primitives}
use open_pa.Emulated.{fetch_and_decr_int_by_faa, fetch_and_incr_int_by_faa}
use open_pa.Cell.Laws.{InRange}
use open_pa.Base.Word.{Size, bytes_4, bytes_8, by_size, sub32, add32}
use open_pa.Cell.{
  compare_exchange, fetch_modify, pure, World, ◌>>◌, set, ◌>>=◌, barrier, get, M, Fence,
}

abbrev read_write_barrier : M (Unit {0})
read_write_barrier = barrier Fence.nt_read_write

unfoldable pub load_int : M ℕ
load_int = get

unfoldable pub store_int : ℕ → M (Unit {0})
store_int val = set val

unfoldable pub load_ptr : M ℕ
load_ptr = get

unfoldable pub store_ptr : ℕ → M (Unit {0})
store_ptr val = set val

unfoldable pub load_acquire_int : M ℕ
load_acquire_int = do tmp ← get; read_write_barrier; pure tmp

unfoldable pub store_release_int : ℕ → M (Unit {0})
store_release_int val = do read_write_barrier; set val

unfoldable pub load_acquire_ptr : M ℕ
load_acquire_ptr = do tmp ← get; read_write_barrier; pure tmp

unfoldable pub store_release_ptr : ℕ → M (Unit {0})
store_release_ptr val = do read_write_barrier; set val

-- The intrinsics, on `&(ptr->v)`. A compare-exchange takes the new value first. The exchanges for words of
-- 32 and of 64 bits take the size of the object that the pointer is to; what they do on one of another
-- size, or with a value that does not fit, is left open.
pub record Intrinsics : Type 0 where
  pub exchange_add : ℕ → M ℕ
  pub increment : M ℕ
  pub decrement : M ℕ
  pub compare_exchange32 : Size → (exchange comparand : ℕ) → M ℕ
  pub compare_exchange64 : Size → (exchange comparand : ℕ) → M ℕ
  pub exchange32 : Size → ℕ → M ℕ
  pub exchange64 : Size → ℕ → M ℕ
  pub adds : (v : ℕ) (w : World) → exchange_add v w ≡ fetch_modify (λ p. add32 p v) w
  pub incs : (w : World) → increment w ≡ (do p ← fetch_modify (λ p. add32 p 1); pure (add32 p 1)) w
  pub decs : (w : World) → decrement w ≡ (do p ← fetch_modify (λ p. sub32 p 1); pure (sub32 p 1)) w
  pub compares32 :
      (new old : ℕ) (w : World)
      → new < 2 ^ 32
      → old < 2 ^ 32
      → InRange (2 ^ 32) w
      → compare_exchange32 bytes_4 new old w ≡ compare_exchange old new w
  pub compares64 :
      (new old : ℕ) (w : World)
      → new < 2 ^ 64
      → old < 2 ^ 64
      → InRange (2 ^ 64) w
      → compare_exchange64 bytes_8 new old w ≡ compare_exchange old new w
  pub swaps32 :
      (v : ℕ) (w : World)
      → v < 2 ^ 32
      → InRange (2 ^ 32) w
      → exchange32 bytes_4 v w ≡ fetch_modify (λ _. v) w
  pub swaps64 :
      (v : ℕ) (w : World)
      → v < 2 ^ 64
      → InRange (2 ^ 64) w
      → exchange64 bytes_8 v w ≡ fetch_modify (λ _. v) w

-- The casts `(LONG)(LONG_PTR)` and `(INT64)(LONG_PTR)`, on bit patterns.
unfoldable pub to_long : ℕ → ℕ
to_long v = v % 2 ^ 32

unfoldable pub to_int64 : ℕ → ℕ
to_int64 v = v % 2 ^ 64

module _ (nt : Intrinsics) where
  unfoldable pub add_int : ℕ → M (Unit {0})
  add_int val = nt.exchange_add val >> pure tt

  unfoldable pub incr_int : M (Unit {0})
  incr_int = nt.increment >> pure tt

  unfoldable pub decr_int : M (Unit {0})
  decr_int = nt.decrement >> pure tt

  unfoldable pub decr_and_test_int : M Bool
  decr_and_test_int = do v ← nt.decrement; pure (v == 0)

  unfoldable pub fetch_and_add_int : ℕ → M ℕ
  fetch_and_add_int val = nt.exchange_add val

  -- OPA_SIZEOF_VOID_P selects the branch.
  unfoldable pub cas_ptr : Size → (oldv newv : ℕ) → M ℕ
  cas_ptr size oldv newv =
      by_size size (nt.compare_exchange32 size (to_long newv) (to_long oldv))
        (nt.compare_exchange64 size (to_int64 newv) (to_int64 oldv))

  unfoldable pub swap_ptr : Size → ℕ → M ℕ
  swap_ptr size val =
      by_size size (nt.exchange32 size (to_long val)) (nt.exchange64 size (to_int64 val))

  unfoldable pub cas_int : (oldv newv : ℕ) → M ℕ
  cas_int oldv newv = nt.compare_exchange32 bytes_4 newv oldv

  unfoldable pub swap_int : ℕ → M ℕ
  swap_int val = nt.exchange32 bytes_4 val

  -- The platform, for a size of the pointers, with a bound on the rounds of its loops.
  unfoldable pub platform : Size → ℕ → Primitives
  platform size fuel = record {
    load_int = load_int;
    store_int = store_int;
    load_ptr = load_ptr;
    store_ptr = store_ptr;
    add_int = add_int;
    incr_int = incr_int;
    decr_int = decr_int;
    decr_and_test_int = decr_and_test_int;
    fetch_and_add_int = fetch_and_add_int;
    fetch_and_incr_int = fetch_and_incr_int_by_faa fetch_and_add_int;
    fetch_and_decr_int = fetch_and_decr_int_by_faa fetch_and_add_int;
    cas_ptr = cas_ptr size;
    cas_int = cas_int;
    swap_ptr = swap_ptr size;
    swap_int = swap_int;
    write_barrier = barrier Fence.nt_write;
    read_barrier = barrier Fence.nt_read;
    read_write_barrier = read_write_barrier;
    load_acquire_int = load_acquire_int;
    store_release_int = store_release_int;
    load_acquire_ptr = load_acquire_ptr;
    store_release_ptr = store_release_ptr;
    compiler_barrier = barrier Fence.nt_read_write;
  }
