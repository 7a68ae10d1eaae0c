-- ===== src/Platform/Ia64/Overwrites.antt =====
-- OPA_swap_int of src/primitives/opa_gcc_ia64.h, and the four bytes behind its variable.
use open_pa.Base.{ℕ, ◌≡◌, ◌<◌, ◌+◌, ◌*◌, ◌%◌, ◌/◌, ◌^◌, refl, arith}
use open_pa.Cell.{World}
use open_pa.Cell.Laws.{Finishes, Applied, InRange, bind}
use open_pa.Cell.Actions.{fetch_modify-Applied}
use open_pa.Platform.Ia64.{Instructions, swap_int}

-- The variable, and the one behind it, in a world whose cell is the eight bytes of both.
abbrev pub variable : ℕ → ℕ
variable cell = cell % 2 ^ 32

abbrev pub neighbour : ℕ → ℕ
neighbour cell = cell / 2 ^ 32

-- The call exchanged eight bytes at once: it returns the value of the variable, which is now `val`, and the
-- neighbour is now `upper`.
abbrev pub Overwrites : (upper val : ℕ) → World → ℕ → World → Type 0
Overwrites upper val w r w' =
    (prev : ℕ) × Applied (2 ^ 64) (λ _. val + 2 ^ 32 * upper) w prev w'
    × (r ≡ variable prev)
    × (variable w'.cell ≡ val)
    × (neighbour w'.cell ≡ upper)

lower_half : (upper val cell : ℕ) → val < 2 ^ 32 → cell ≡ val + 2 ^ 32 * upper → variable cell ≡ val
lower_half upper val cell h e = omega arith

upper_half :
    (upper val cell : ℕ) → val < 2 ^ 32 → cell ≡ val + 2 ^ 32 * upper → neighbour cell ≡ upper
upper_half upper val cell h e = omega arith

-- For any instructions that satisfy their laws, and any value in the upper half of the register: the
-- swap of an `int` ends, returns the variable's value and stores `val` at once with it, and leaves in
-- the four bytes behind the variable the upper half of the register, whatever they held.
pub swap_int-Overwrites :
    (isa : Instructions) (upper val : ℕ) (w : World)
    → upper < 2 ^ 32
    → val < 2 ^ 32
    → InRange (2 ^ 64) w
    → Finishes (Overwrites upper val w) (swap_int isa upper val w)
unfolding swap_int
swap_int-Overwrites isa upper val w u v r = rw (isa.swaps8 (val + 2 ^ 32 * upper) w) (
    bind (fetch_modify-Applied (2 ^ 64) w r (λ _. val + 2 ^ 32 * upper) (λ _ _. omega arith))
      (λ prev w' a. Finishes.finishes (
        prev,
        a,
        refl,
        lower_half upper val w'.cell v a.now,
        upper_half upper val w'.cell v a.now,
      )))
