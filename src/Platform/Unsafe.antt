-- ===== src/Platform/Unsafe.antt =====
-- src/primitives/opa_unsafe.h: plain accesses, for programs of one thread.
pub mod Alone
use open_pa.Base.{ℕ, ◌==◌, Bool, if◌then◌else◌}
use open_pa.Base.Word.{add32, sub32}
use open_pa.Cell.{M, pure, ◌>>=◌, ◌>>◌, get, set}
use open_pa.Primitives.{Primitives}

unfoldable pub load_int : M ℕ
load_int = do retval ← get; pure retval

unfoldable pub store_int : ℕ → M (Unit {0})
store_int val = set val

unfoldable pub load_ptr : M ℕ
load_ptr = do retval ← get; pure retval

unfoldable pub store_ptr : ℕ → M (Unit {0})
store_ptr val = set val

-- `ptr->v += val`, `++(ptr->v)` and `--(ptr->v)`, the last with its value.
abbrev add_to : ℕ → M (Unit {0})
add_to val = do v ← get; set (add32 v val)

abbrev decrement : M ℕ
decrement = do v ← get; set (sub32 v 1); pure (sub32 v 1)

unfoldable pub add_int : ℕ → M (Unit {0})
add_int val = add_to val

unfoldable pub cas_ptr : (oldv newv : ℕ) → M ℕ
cas_ptr oldv newv = do prev ← get; if prev == oldv then set newv >> pure prev else pure prev

unfoldable pub cas_int : (oldv newv : ℕ) → M ℕ
cas_int oldv newv = do prev ← get; if prev == oldv then set newv >> pure prev else pure prev

unfoldable pub decr_and_test_int : M Bool
decr_and_test_int = do new_val ← decrement; pure (0 == new_val)

unfoldable pub decr_int : M (Unit {0})
decr_int = decrement >> pure tt

-- The variable is read once for the result and once for the sum.
unfoldable pub fetch_and_add_int : ℕ → M ℕ
fetch_and_add_int val = do prev ← get; add_to val; pure prev

unfoldable pub fetch_and_decr_int : M ℕ
fetch_and_decr_int = do prev ← get; decrement >> pure prev

unfoldable pub fetch_and_incr_int : M ℕ
fetch_and_incr_int = do prev ← get; add_to 1; pure prev

unfoldable pub incr_int : M (Unit {0})
incr_int = add_to 1

unfoldable pub swap_ptr : ℕ → M ℕ
swap_ptr val = do prev ← get; set val; pure prev

unfoldable pub swap_int : ℕ → M ℕ
swap_int val = do prev ← get; set val; pure prev

-- The loads and stores with ordering are the plain ones, and the barriers are empty statements.
unfoldable pub platform : Primitives
platform = record {
  load_int = load_int;
  store_int = store_int;
  load_ptr = load_ptr;
  store_ptr = store_ptr;
  add_int = add_int;
  incr_int = incr_int;
  decr_int = decr_int;
  decr_and_test_int = decr_and_test_int;
  fetch_and_add_int = fetch_and_add_int;
  fetch_and_incr_int = fetch_and_incr_int;
  fetch_and_decr_int = fetch_and_decr_int;
  cas_ptr = cas_ptr;
  cas_int = cas_int;
  swap_ptr = swap_ptr;
  swap_int = swap_int;
  write_barrier = pure tt;
  read_barrier = pure tt;
  read_write_barrier = pure tt;
  load_acquire_int = load_int;
  store_release_int = store_int;
  load_acquire_ptr = load_ptr;
  store_release_ptr = store_ptr;
  compiler_barrier = pure tt;
}
