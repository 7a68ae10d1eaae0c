-- ===== src/Emulated/Retries/Invariant.antt =====
-- What holds of the threads in the retry loops and of the calls that have ended.
use open_pa.Base.{
  ℕ, ◌≡◌, ◌<◌, ◌≤◌, ◌==◌, Bool, true, false, Bool-cases, suc, refl, subst, inl, inr, ◌⊎◌, arith,
  List, [], ◌∷◌, ==-eq,
}
use open_pa.Primitives.{Op}
use open_pa.Primitives.Reference.{effect, result}
use open_pa.Emulated.Retries.{
  IsByCas, Loop, adding, comparing, swapping, stores, stored, Worker, idle, linking, storing,
  loading, trying, Entry, System, set_worker,
}

-- The operation that a loop is for.
abbrev pub op_of : Loop → Op
op_of (adding val) = Op.fetch_and_add_int val
op_of (comparing oldv newv) = Op.cas_int oldv newv
op_of (swapping val) = Op.swap_int val

-- The value after a history of calls in one piece each, and that each returned what it then returns.
abbrev pub replay : ℕ → List Entry → ℕ
replay v [] = v
replay v (e ∷ es) = effect (op_of e.loop) (replay v es)

abbrev pub IsLegal : ℕ → List Entry → Type 0
IsLegal v [] = Unit
IsLegal v (e ∷ es) = (e.result ≡ result (op_of e.loop) (replay v es)) × IsLegal v es

pub stored-effect : (l : Loop) (p : ℕ) → stores l p ≡ true → stored l p ≡ effect (op_of l) p
unfolding stores stored
stored-effect (adding val) p e = refl
stored-effect (comparing oldv newv) p e = rw e refl
stored-effect (swapping val) p e = refl

pub kept-effect : (l : Loop) (p : ℕ) → stores l p ≡ false → p ≡ effect (op_of l) p
unfolding stores
kept-effect (adding val) p e = cc
kept-effect (comparing oldv newv) p e = rw e refl
kept-effect (swapping val) p e = cc

pub result-same : (l : Loop) (p : ℕ) → p ≡ result (op_of l) p
result-same (adding val) p = refl
result-same (comparing oldv newv) p = refl
result-same (swapping val) p = refl

pub IsByCas-stores : (l : Loop) (p : ℕ) → IsByCas l → stores l p ≡ true
unfolding stores
IsByCas-stores (adding val) p b = refl
IsByCas-stores (comparing oldv newv) p b = absurd b
IsByCas-stores (swapping val) p b = refl

-- A thread before its store-conditional: its reservation stands and it has found the value that the
-- variable has, or something has changed since it found it. A thread before its compare-and-swap: what it
-- has found is there, or something has changed.
abbrev pub Found : (cell : ℕ) (flag : Bool) (changes : ℕ) → Worker → Type 0
Found cell flag changes (storing l prev seen) =
    (stores l prev ≡ true)
    × (((flag ≡ true) × (prev ≡ cell) × (seen ≤ changes)) ⊎ ((flag ≡ false) × (seen < changes)))
Found cell flag changes (loading l) = IsByCas l
Found cell flag changes (trying l prev seen) =
    IsByCas l × (((prev ≡ cell) × (seen ≤ changes)) ⊎ (seen < changes))
Found cell flag changes _ = Unit

pub record Inv (v : ℕ) (s : System) : Type 0 where
  pub legal : IsLegal v s.history
  pub cell : s.cell ≡ replay v s.history
  pub found : (i : ℕ) → Found s.cell (s.reserved i) s.changes (s.workers i)

-- A change of the variable or of the reservation ends what was found.
pub Found-changed :
    (cell cell' : ℕ) (flag : Bool) (changes : ℕ) (w : Worker)
    → Found cell flag changes w
    → Found cell' false (suc changes) w
Found-changed cell cell' flag changes idle f = tt
Found-changed cell cell' flag changes (linking l) f = tt
Found-changed cell cell' flag changes (storing l p n) (e, inl (_, _, h)) =
    (e, inr (refl, omega (arith, h)))
Found-changed cell cell' flag changes (storing l p n) (e, inr (_, h)) =
    (e, inr (refl, omega (arith, h)))
Found-changed cell cell' flag changes (loading l) f = f
Found-changed cell cell' flag changes (trying l p n) (b, inl (_, h)) = (b, inr (omega (arith, h)))
Found-changed cell cell' flag changes (trying l p n) (b, inr h) = (b, inr (omega (arith, h)))

pub Found-later :
    (cell : ℕ) (flag : Bool) (changes : ℕ) (w : Worker)
    → Found cell flag changes w
    → Found cell flag (suc changes) w
Found-later cell flag changes idle f = tt
Found-later cell flag changes (linking l) f = tt
Found-later cell flag changes (storing l p n) (e, inl (a, b, h)) = (e, inl (a, b, omega (arith, h)))
Found-later cell flag changes (storing l p n) (e, inr (a, h)) = (e, inr (a, omega (arith, h)))
Found-later cell flag changes (loading l) f = f
Found-later cell flag changes (trying l p n) (b, inl (a, h)) = (b, inl (a, omega (arith, h)))
Found-later cell flag changes (trying l p n) (b, inr h) = (b, inr (omega (arith, h)))

-- One worker moves.
pub each-Found :
    (cell changes : ℕ) (fs : ℕ → Bool) (ws : ℕ → Worker) (i : ℕ) (w : Worker)
    → Found cell (fs i) changes w
    → ((j : ℕ) → (i == j) ≡ false → Found cell (fs j) changes (ws j))
    → (j : ℕ) → Found cell (fs j) changes (set_worker ws i w j)
each-Found cell changes fs ws i w f k j = elim (Bool-cases (i == j)) [
  | inl e ↦ rw e (subst (λ x. Found cell (fs x) changes w) (==-eq i j e) f)
  | inr e ↦ rw e (k j e)
]
