-- ===== src/Platform/Stdatomic.antt =====
-- src/primitives/opa_c11_atomics.h: the operations of <stdatomic.h>.
pub mod Atomic
use open_pa.Base.{if◌then◌else◌, ◌==◌, Bool, ℕ}
use open_pa.Primitives.{Primitives}
use open_pa.Base.Word.{add32, minus_one}
use open_pa.Cell.{pure, compare_exchange, get, set, fetch_modify, ◌>>=◌, barrier, ◌>>◌, M, Fence}

-- The library's operations, with a fence in the trace where the memory order asks for one.
pub data MemoryOrder : Type 0 where
  relaxed acquire release : MemoryOrder

abbrev pub atomic_load_explicit : MemoryOrder → M ℕ
atomic_load_explicit acquire = do v ← get; barrier Fence.order_acquire; pure v
atomic_load_explicit _ = get

abbrev pub atomic_store_explicit : ℕ → MemoryOrder → M (Unit {0})
atomic_store_explicit val release = do barrier Fence.order_release; set val
atomic_store_explicit val _ = set val

abbrev pub atomic_fetch_add_explicit : ℕ → M ℕ
atomic_fetch_add_explicit val = fetch_modify (λ p. add32 p val)

abbrev pub atomic_exchange_explicit : ℕ → M ℕ
atomic_exchange_explicit val = fetch_modify (λ _. val)

-- The answer, and what `*expected` holds afterwards: on failure, the value found.
abbrev pub atomic_compare_exchange_strong_explicit : (expected desired : ℕ) → M (Bool × ℕ)
atomic_compare_exchange_strong_explicit expected desired = do
  found ← compare_exchange expected desired
  pure (found == expected, if found == expected then expected else found)

unfoldable pub load_int : M ℕ
load_int = atomic_load_explicit relaxed

unfoldable pub store_int : ℕ → M (Unit {0})
store_int val = atomic_store_explicit val relaxed

unfoldable pub load_ptr : M ℕ
load_ptr = atomic_load_explicit relaxed

unfoldable pub store_ptr : ℕ → M (Unit {0})
store_ptr val = atomic_store_explicit val relaxed

unfoldable pub load_acquire_int : M ℕ
load_acquire_int = atomic_load_explicit acquire

unfoldable pub store_release_int : ℕ → M (Unit {0})
store_release_int val = atomic_store_explicit val release

unfoldable pub load_acquire_ptr : M ℕ
load_acquire_ptr = atomic_load_explicit acquire

unfoldable pub store_release_ptr : ℕ → M (Unit {0})
store_release_ptr val = atomic_store_explicit val release

unfoldable pub add_int : ℕ → M (Unit {0})
add_int val = atomic_fetch_add_explicit val >> pure tt

unfoldable pub fetch_and_add_int : ℕ → M ℕ
fetch_and_add_int val = atomic_fetch_add_explicit val

unfoldable pub fetch_and_decr_int : M ℕ
fetch_and_decr_int = atomic_fetch_add_explicit minus_one

unfoldable pub fetch_and_incr_int : M ℕ
fetch_and_incr_int = atomic_fetch_add_explicit 1

unfoldable pub incr_int : M (Unit {0})
incr_int = atomic_fetch_add_explicit 1 >> pure tt

unfoldable pub decr_int : M (Unit {0})
decr_int = atomic_fetch_add_explicit minus_one >> pure tt

unfoldable pub decr_and_test_int : M Bool
decr_and_test_int = do prev ← atomic_fetch_add_explicit minus_one; pure (prev == 1)

unfoldable pub cas_ptr : ℕ → ℕ → M ℕ
cas_ptr comparand swaperand = do
  r ← atomic_compare_exchange_strong_explicit comparand swaperand
  pure r.1

unfoldable pub cas_int : ℕ → ℕ → M ℕ
cas_int comparand swaperand = do
  r ← atomic_compare_exchange_strong_explicit comparand swaperand
  pure r.1

unfoldable pub swap_ptr : ℕ → M ℕ
swap_ptr val = atomic_exchange_explicit val

unfoldable pub swap_int : ℕ → M ℕ
swap_int val = atomic_exchange_explicit val

-- The platform, which has no loops.
unfoldable pub platform : Primitives
platform = record {
  load_int = load_int;
  store_int = store_int;
  load_ptr = load_ptr;
  store_ptr = store_ptr;
  add_int = add_int;
  incr_int = incr_int;
  decr_int = decr_int;
  decr_and_test_int = decr_and_test_int;
  fetch_and_add_int = fetch_and_add_int;
  fetch_and_incr_int = fetch_and_incr_int;
  fetch_and_decr_int = fetch_and_decr_int;
  cas_ptr = cas_ptr;
  cas_int = cas_int;
  swap_ptr = swap_ptr;
  swap_int = swap_int;
  write_barrier = barrier Fence.fence_acq_rel;
  read_barrier = barrier Fence.fence_acq_rel;
  read_write_barrier = barrier Fence.fence_acq_rel;
  load_acquire_int = load_acquire_int;
  store_release_int = store_release_int;
  load_acquire_ptr = load_acquire_ptr;
  store_release_ptr = store_release_ptr;
  compiler_barrier = barrier Fence.signal_acq_rel;
}
