-- ===== src/Cell/Laws.antt =====
-- What the actions on an atomic variable do, and what it means that an operation is atomic.
use open_pa.Base.{
  ap, ◌∙◌, ℕ, ◌≡◌, ◌≢◌, ◌≤◌, refl, true, List, [], ◌∷◌, length, ◌<◌, arith, ◌⊎◌, inl, inr,
}
use open_pa.Cell.{
  Event, take_turn, quiet, lose, put, Access, read, wrote, fence, World, settle, Outcome, done, M,
  and_then,
}

-- A run that ends, with a postcondition on its result and its last world.
pub data Finishes {ℓ κ} {A : Type ℓ} (P : A → World → Type κ) : Outcome A → Type (ℓ ⊔ κ) where
  finishes : {a : A} {w : World} → P a w → Finishes P (done a w)

pub bind {ℓ κ μ ν} :
    {A : Type ℓ} {B : Type κ} {P : A → World → Type μ} {Q : B → World → Type ν} {o : Outcome A}
    {k : A → M B}
    → Finishes P o
    → ((a : A) (w : World) → P a w → Finishes Q (k a w))
    → Finishes Q (and_then o k)
bind (finishes p) next = next _ _ p

pub mono {ℓ κ μ} :
    {A : Type ℓ} {P : A → World → Type κ} {Q : A → World → Type μ} {o : Outcome A}
    → Finishes P o
    → ((a : A) (w : World) → P a w → Q a w)
    → Finishes Q o
mono (finishes p) weaken = finishes (weaken _ _ p)

-- The writes of a trace: value replaced, value written.
abbrev pub writes : List Access → List (ℕ × ℕ)
writes [] = []
writes (read v ∷ t) = writes t
writes (wrote old new ∷ t) = (old, new) ∷ writes t
writes (fence k ∷ t) = writes t

-- The other threads write values below `m` only.
abbrev pub AllBelow : ℕ → List Event → Type 0
AllBelow m [] = Unit
AllBelow m (quiet ∷ es) = AllBelow m es
AllBelow m (lose ∷ es) = AllBelow m es
AllBelow m (put v ∷ es) = (v < m) × AllBelow m es

-- The variable has a type with values below `m`.
pub record InRange (m : ℕ) (w : World) : Type 0 where
  pub cell : w.cell < m
  pub ahead : AllBelow m w.ahead

-- What every operation keeps, the value that it returns included.
pub record Kept (m : ℕ) (w : World) (prev : ℕ) (w' : World) : Type 0 where
  pub found : prev < m
  pub range : InRange m w'
  pub events : length w'.ahead ≤ length w.ahead

-- From `w` to `w'` the thread made exactly one write, which replaced the value `prev` by `f prev`,
-- and no other thread has written since.
pub record Applied (m : ℕ) (f : ℕ → ℕ) (w : World) (prev : ℕ) (w' : World) : Type 0 where
  pub now : w'.cell ≡ f prev
  pub once : writes w'.trace ≡ (prev, f prev) ∷ writes w.trace
  pub kept : Kept m w prev w'

-- The thread wrote nothing, and `prev` is the value that the variable has now.
pub record Observed (m : ℕ) (w : World) (prev : ℕ) (w' : World) : Type 0 where
  pub now : w'.cell ≡ prev
  pub none_written : writes w'.trace ≡ writes w.trace
  pub kept : Kept m w prev w'

-- A compare-and-swap that replaced `old` by `new`, or found another value and wrote nothing.
pub data Swapped (m old new : ℕ) (w : World) (prev : ℕ) (w' : World) : Type 0 where
  hit : prev ≡ old → Applied m (λ _. new) w prev w' → Swapped m old new w prev w'
  miss : prev ≢ old → Observed m w prev w' → Swapped m old new w prev w'

-- The other threads leave this thread's trace alone.
pub settle-trace : (w : World) → (settle w).trace ≡ w.trace
unfolding settle
settle-trace w = ground arith

pub settle-ahead-le : (w : World) → length (settle w).ahead ≤ length w.ahead
unfolding settle
settle-ahead-le w = ground arith

pub settle-InRange : (m : ℕ) (w : World) → InRange m w → InRange m (settle w)
unfolding settle
settle-InRange m w r = go w.ahead r.ahead
  where
    go : (es : List Event) → AllBelow m es → InRange m (take_turn es w)
    go [] h = r
    go (quiet ∷ es) h = record { cell = r.cell; ahead = h }
    go (lose ∷ es) h = record { cell = r.cell; ahead = h }
    go (put v ∷ es) h = record { cell = h.0; ahead = h.1 }

-- Whatever changes the value or the reservation uses up one event.
pub settle-cases :
    (w : World)
    → ((settle w).cell ≡ w.cell) × ((settle w).linked ≡ w.linked)
      ⊎ (length (settle w).ahead < length w.ahead)
unfolding settle
settle-cases w = go w.ahead
  where
    go :
        (es : List Event)
        → ((take_turn es w).cell ≡ w.cell) × ((take_turn es w).linked ≡ w.linked)
          ⊎ (length (take_turn es w).ahead < length es)
    go [] = inl (refl, refl)
    go (quiet ∷ es) = inr (omega arith)
    go (lose ∷ es) = inr (omega arith)
    go (put v ∷ es) = inr (omega arith)

-- A reservation that stands means that nobody has written.
pub settle-linked : (w : World) → (settle w).linked ≡ true → (settle w).cell ≡ w.cell
unfolding settle
settle-linked w h = ground arith

-- The thread has written nothing from `w` to `w'`.
pub record Silent (m : ℕ) (w w' : World) : Type 0 where
  pub none_written : writes w'.trace ≡ writes w.trace
  pub range : InRange m w'
  pub events : length w'.ahead ≤ length w.ahead

module _ {m : ℕ} {w v : World} where
  pub Observed-Silent : {p : ℕ} → Observed m w p v → Silent m w v
  Observed-Silent o = record {
    none_written = o.none_written;
    range = o.kept.range;
    events = o.kept.events;
  }

  -- An operation from `v` is one from `w` if the thread has written nothing before.
  Kept-after : {p : ℕ} {u : World} → Silent m w v → Kept m v p u → Kept m w p u
  Kept-after s k = record {
    found = k.found;
    range = k.range;
    events = omega (arith, s.events, k.events);
  }

  pub Applied-after :
      {f : ℕ → ℕ} {p : ℕ} {u : World} → Silent m w v → Applied m f v p u → Applied m f w p u
  Applied-after {f} {p} s a = record {
    now = a.now;
    once = a.once ∙ ap (λ t. (p, f p) ∷ t) s.none_written;
    kept = Kept-after s a.kept;
  }

  pub Observed-after : {p : ℕ} {u : World} → Silent m w v → Observed m v p u → Observed m w p u
  Observed-after s o = record {
    now = o.now;
    none_written = o.none_written ∙ s.none_written;
    kept = Kept-after s o.kept;
  }

-- Two updates that agree at the value found.
pub Applied-cong :
    {m : ℕ} {f g : ℕ → ℕ} {w : World} {p : ℕ} {u : World}
    → f p ≡ g p
    → Applied m f w p u
    → Applied m g w p u
Applied-cong {w} {p} e a = record {
  now = a.now ∙ e;
  once = a.once ∙ ap (λ x. (p, x) ∷ writes w.trace) e;
  kept = a.kept;
}
