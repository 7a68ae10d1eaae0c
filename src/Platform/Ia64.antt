-- ===== src/Platform/Ia64.antt =====
-- src/primitives/opa_gcc_ia64.h: Itanium. The loads with acquire and stores with release are disabled in
-- the header. An `int` has four bytes.
pub mod Counts
pub mod Overwrites
use open_pa.Base.{◌+◌, ◌*◌, ◌%◌, ℕ, ◌≡◌, ◌==◌, ◌||◌, ◌-◌, ◌^◌, Bool, true, if◌then◌else◌}
use open_pa.Base.Word.{add32, minus_one}
use open_pa.Cell.{barrier, Fence, World, M, pure, ◌>>=◌, get, set, fetch_modify, compare_exchange}
use open_pa.Cell.Loop.{do_while}
use open_pa.Emulated.{Locals, cas_round, cas_again}

unfoldable pub load_int : M ℕ
load_int = get

unfoldable pub store_int : ℕ → M (Unit {0})
store_int val = set val

unfoldable pub load_ptr : M ℕ
load_ptr = get

unfoldable pub store_ptr : ℕ → M (Unit {0})
store_ptr val = set val

-- The values that the fetch-and-add instruction takes: -16, -8, -4, -1, 1, 4, 8 and 16.
unfoldable pub is_immediate : ℕ → Bool
is_immediate val =
    val == 2 ^ 32 - 16
    || val == 2 ^ 32 - 8
    || val == 2 ^ 32 - 4
    || val == minus_one
    || val == 1
    || val == 4
    || val == 8
    || val == 16

-- The instructions on `&ptr->v`.
pub record Instructions : Type 0 where
  pub fetchadd4_rel : ℕ → M ℕ
  pub cmpxchg4_rel : (oldv newv : ℕ) → M ℕ
  pub cmpxchg8_rel : (oldv newv : ℕ) → M ℕ
  pub xchg8 : ℕ → M ℕ
  pub adds :
      (v : ℕ)
      → is_immediate v ≡ true
      → (w : World) → fetchadd4_rel v w ≡ fetch_modify (λ p. add32 p v) w
  pub compares4 : (old new : ℕ) (w : World) → cmpxchg4_rel old new w ≡ compare_exchange old new w
  pub compares8 : (old new : ℕ) (w : World) → cmpxchg8_rel old new w ≡ compare_exchange old new w
  pub swaps8 : (v : ℕ) (w : World) → xchg8 v w ≡ fetch_modify (λ _. v) w

module _ (isa : Instructions) where
  unfoldable pub decr_and_test_int : M Bool
  decr_and_test_int = do val ← isa.fetchadd4_rel minus_one; pure (val == 1)

  unfoldable pub cas_int : (oldv newv : ℕ) → M ℕ
  cas_int oldv newv = isa.cmpxchg4_rel oldv newv

  -- The default case of the switch: the loop stores `val`, not the sum.
  unfoldable pub fetch_and_add_default : ℕ → ℕ → M ℕ
  fetch_and_add_default fuel val = do
    prev ← load_int
    l ← do_while fuel (cas_round cas_int (λ _. val)) cas_again (record { cmp = 0; prev = prev })
    pure l.prev

  unfoldable pub fetch_and_add_int : ℕ → ℕ → M ℕ
  fetch_and_add_int fuel val =
      if is_immediate val then isa.fetchadd4_rel val else fetch_and_add_default fuel val

  unfoldable pub cas_ptr : (oldv newv : ℕ) → M ℕ
  cas_ptr oldv newv = isa.cmpxchg8_rel oldv newv

  unfoldable pub swap_ptr : ℕ → M ℕ
  swap_ptr val = isa.xchg8 val

  -- The instruction exchanges the eight bytes at `&ptr->v`, of which the variable is the lower half:
  -- here the world's cell is all eight. The register holds `val` and, in its upper half, `upper`, which
  -- the language leaves open. The function returns the lower half of what comes back.
  unfoldable pub swap_int : (upper val : ℕ) → M ℕ
  swap_int upper val = do r ← isa.xchg8 (val + 2 ^ 32 * upper); pure (r % 2 ^ 32)

unfoldable pub write_barrier : M (Unit {0})
write_barrier = barrier Fence.mf

unfoldable pub read_barrier : M (Unit {0})
read_barrier = barrier Fence.mf

unfoldable pub read_write_barrier : M (Unit {0})
read_write_barrier = barrier Fence.mf

unfoldable pub compiler_barrier : M (Unit {0})
compiler_barrier = barrier Fence.compiler
