-- ===== src/Base/Tests.antt =====
-- C's tests on numbers, and its conditional.
use Prim.Native.Nat.{ℕ, compare, Ordering}
use mathlib.Core.Path.{◌≡◌, refl, subst}
use mathlib.Core.Logic.{◌≢◌, ◌⊎◌, inl, inr}
use mathlib.Core.Bool.{Bool, true, false}
use native.Mathlib.Omega.{arith}

infix 50 ◌==◌
abbrev pub ◌==◌ : ℕ → ℕ → Bool
a == b = elim (compare a b) [ Ordering.eq ↦ true | _ ↦ false ]

infix 1 if◌then◌else◌
abbrev pub if◌then◌else◌ {ℓ} : {A : Type ℓ} → Bool → A → A → A
if true then x else y = x
if false then x else y = y

-- To split on a computed test and keep the equation.
pub Bool-cases : (b : Bool) → (b ≡ true) ⊎ (b ≡ false)
Bool-cases true = inl refl
Bool-cases false = inr refl

pub ==-self : (a : ℕ) → (a == a) ≡ true
==-self a = ground arith

pub ==-eq : (a b : ℕ) → (a == b) ≡ true → a ≡ b
==-eq a b h = ground arith

pub ==-ne : (a b : ℕ) → (a == b) ≡ false → a ≢ b
==-ne a b h = ground arith

pub eq_zero_comm : (v : ℕ) → (0 == v) ≡ (v == 0)
eq_zero_comm v = ground arith

-- A function changed at one place.
abbrev pub set_at {ℓ} : {A : Type ℓ} → (ℕ → A) → ℕ → A → ℕ → A
set_at f i v j = if i == j then v else f j

pub set_at_self {ℓ} : {A : Type ℓ} (f : ℕ → A) (i : ℕ) (v : A) → set_at f i v i ≡ v
set_at_self f i v = rw (==-self i) refl

pub set_at-other {ℓ} :
    {A : Type ℓ} (f : ℕ → A) (i : ℕ) (v : A) (j : ℕ) → i ≢ j → set_at f i v j ≡ f j
set_at-other f i v j n = elim (Bool-cases (i == j)) [
  | inl e ↦ absurd (n (==-eq i j e))
  | inr e ↦ rw e refl
]

pub set_at-cases {ℓ} :
    {A : Type ℓ} (f : ℕ → A) (i : ℕ) (v : A) (j : ℕ) (x : A)
    → set_at f i v j ≡ x
    → ((i ≡ j) × (v ≡ x)) ⊎ (f j ≡ x)
set_at-cases f i v j x = elim (Bool-cases (i == j)) [
  | inl e ↦ rw e (λ k. inl (==-eq i j e, k))
  | inr e ↦ rw e (λ k. inr k)
]

-- What holds at the place that changes, and elsewhere.
pub each-set_at {ℓ κ} :
    {A : Type ℓ} (P : ℕ → A → Type κ) (f : ℕ → A) (i : ℕ) (v : A)
    → P i v
    → ((j : ℕ) → (i == j) ≡ false → P j (f j))
    → (j : ℕ) → P j (set_at f i v j)
each-set_at P f i v p q j = elim (Bool-cases (i == j)) [
  | inl e ↦ rw e (subst (λ k. P k v) (==-eq i j e) p)
  | inr e ↦ rw e (q j e)
]
