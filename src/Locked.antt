-- ===== src/Locked.antt =====
-- src/primitives/opa_by_lock.h: every operation inside one critical section of a lock that all
-- processes share. An operation is a program of accesses to the variable at `ptr`; the assertions that
-- the lock is there are compiled away.
pub mod Accesses
pub mod Init
pub mod Threads
pub mod Body
pub mod Invariant
pub mod Moves
pub mod Order
pub mod Progress
pub mod Counters
pub mod Alone
use open_pa.Base.{ℕ, ◌==◌, if◌then◌else◌, Bool}
use open_pa.Base.Word.{add32, sub32}
use open_pa.Primitives.{Op, truth}
use open_pa.Locked.Accesses.{Program, return, lock, unlock, pure, get, set, ◌>>=◌, ◌>>◌}

-- OPA_IPC_SINGLE_CS_ENTER and OPA_IPC_SINGLE_CS_EXIT
abbrev pub cs_enter : Program (Unit {0})
cs_enter = lock (return tt)

abbrev pub cs_exit : Program (Unit {0})
cs_exit = unlock (return tt)

unfoldable pub load_int : (ptr : ℕ) → Program ℕ
load_int ptr = do cs_enter; retval ← get ptr; cs_exit; pure retval

unfoldable pub store_int : (ptr val : ℕ) → Program (Unit {0})
store_int ptr val = do cs_enter; set ptr val; cs_exit

unfoldable pub load_ptr : (ptr : ℕ) → Program ℕ
load_ptr ptr = do cs_enter; retval ← get ptr; cs_exit; pure retval

unfoldable pub store_ptr : (ptr val : ℕ) → Program (Unit {0})
store_ptr ptr val = do cs_enter; set ptr val; cs_exit

unfoldable pub add_int : (ptr val : ℕ) → Program (Unit {0})
add_int ptr val = do cs_enter; v ← get ptr; set ptr (add32 v val); cs_exit

unfoldable pub cas_ptr : (ptr oldv newv : ℕ) → Program ℕ
cas_ptr ptr oldv newv = do
  cs_enter
  prev ← get ptr
  if prev == oldv then set ptr newv else pure tt
  cs_exit
  pure prev

unfoldable pub cas_int : (ptr oldv newv : ℕ) → Program ℕ
cas_int ptr oldv newv = do
  cs_enter
  prev ← get ptr
  if prev == oldv then set ptr newv else pure tt
  cs_exit
  pure prev

unfoldable pub decr_and_test_int : (ptr : ℕ) → Program Bool
decr_and_test_int ptr = do
  cs_enter
  v ← get ptr
  let new_val : ℕ = sub32 v 1
  set ptr new_val
  cs_exit
  pure (0 == new_val)

unfoldable pub decr_int : (ptr : ℕ) → Program (Unit {0})
decr_int ptr = do cs_enter; v ← get ptr; set ptr (sub32 v 1); cs_exit

unfoldable pub fetch_and_add_int : (ptr val : ℕ) → Program ℕ
fetch_and_add_int ptr val = do
  cs_enter
  prev ← get ptr
  v ← get ptr
  set ptr (add32 v val)
  cs_exit
  pure prev

unfoldable pub fetch_and_decr_int : (ptr : ℕ) → Program ℕ
fetch_and_decr_int ptr = do
  cs_enter
  prev ← get ptr
  v ← get ptr
  set ptr (sub32 v 1)
  cs_exit
  pure prev

unfoldable pub fetch_and_incr_int : (ptr : ℕ) → Program ℕ
fetch_and_incr_int ptr = do
  cs_enter
  prev ← get ptr
  v ← get ptr
  set ptr (add32 v 1)
  cs_exit
  pure prev

unfoldable pub incr_int : (ptr : ℕ) → Program (Unit {0})
incr_int ptr = do cs_enter; v ← get ptr; set ptr (add32 v 1); cs_exit

unfoldable pub swap_ptr : (ptr val : ℕ) → Program ℕ
swap_ptr ptr val = do cs_enter; prev ← get ptr; set ptr val; cs_exit; pure prev

unfoldable pub swap_int : (ptr val : ℕ) → Program ℕ
swap_int ptr val = do cs_enter; prev ← get ptr; set ptr val; cs_exit; pure prev

-- A call, with 0 for the result of a function that returns nothing. The loads with acquire and the
-- stores with release are macros for the plain ones.
abbrev no_result : Program (Unit {0}) → Program ℕ
no_result m = m >> pure 0

unfoldable pub code : (ptr : ℕ) → Op → Program ℕ
unfolding load_int store_int load_ptr store_ptr add_int cas_ptr cas_int decr_and_test_int decr_int
    fetch_and_add_int fetch_and_decr_int fetch_and_incr_int incr_int swap_ptr swap_int
code ptr Op.load_int = load_int ptr
code ptr Op.load_ptr = load_ptr ptr
code ptr Op.load_acquire_int = load_int ptr
code ptr Op.load_acquire_ptr = load_ptr ptr
code ptr (Op.store_int v) = no_result (store_int ptr v)
code ptr (Op.store_ptr v) = no_result (store_ptr ptr v)
code ptr (Op.store_release_int v) = no_result (store_int ptr v)
code ptr (Op.store_release_ptr v) = no_result (store_ptr ptr v)
code ptr (Op.add_int v) = no_result (add_int ptr v)
code ptr (Op.fetch_and_add_int v) = fetch_and_add_int ptr v
code ptr Op.incr_int = no_result (incr_int ptr)
code ptr Op.decr_int = no_result (decr_int ptr)
code ptr Op.decr_and_test_int = do b ← decr_and_test_int ptr; pure (truth b)
code ptr Op.fetch_and_incr_int = fetch_and_incr_int ptr
code ptr Op.fetch_and_decr_int = fetch_and_decr_int ptr
code ptr (Op.cas_int old new) = cas_int ptr old new
code ptr (Op.cas_ptr old new) = cas_ptr ptr old new
code ptr (Op.swap_int v) = swap_int ptr v
code ptr (Op.swap_ptr v) = swap_ptr ptr v
