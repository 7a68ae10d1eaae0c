-- ===== src/Primitives/Derived.antt =====
-- The promises of the operations that platforms derive from others, or share.
use open_pa.Base.{Bool, ap, ℕ, ◌≡◌, refl, ◌∷◌, ◌==◌, ◌<◌}
use open_pa.Base.Word.{sub32-one, sub32-eq_zero, sub32, add32, minus_one}
use open_pa.Cell.{and_then, log, World, pure, ◌>>=◌, ◌>>◌, get, set, barrier, Fence, fence, Outcome}
use open_pa.Cell.Laws.{Applied-cong, Finishes, finishes, bind, mono, InRange, Applied, Observed}
use open_pa.Cell.Actions.{get-Observed, set-Applied}
use open_pa.Primitives.{int_mod, no_result, truth, Updated, LoadThenFence, FenceThenStore}

-- A result that is passed on.
pub returned {ℓ κ} :
    {A : Type ℓ} {P : A → World → Type κ} {o : Outcome A}
    → Finishes P o
    → Finishes P (and_then o λ x. pure x)
returned (finishes p) = finishes p

module _ {m : ℕ} {f : ℕ → ℕ} {w : World} where
  -- An operation that returns nothing.
  pub updated :
      {o : Outcome (Unit {0})}
      → Finishes (λ _ w'. (prev : ℕ) × Applied m f w prev w') o
      → Finishes (Updated m f w) (and_then o λ _. pure 0)
  updated h = bind h λ _ w' (prev, a). finishes (prev, refl, a)

  -- An operation whose result is dropped.
  pub discarded :
      {o : Outcome ℕ}
      → Finishes (Applied m f w) o
      → Finishes {A = Unit {0}}
          (λ _ w'. (prev : ℕ) × Applied m f w prev w')
          (and_then o λ _. pure tt)
  discarded h = bind h λ prev w' a. finishes (prev, a)

-- The test on the value that a decrement replaced.
pub tested :
    {m : ℕ} {w : World} {o : Outcome ℕ}
    → Finishes (Applied m (λ p. add32 p minus_one) w) o
    → Finishes
        (λ r w'.
          (prev : ℕ) × (r ≡ truth (prev == 1)) × Applied m (λ p. add32 p minus_one) w prev w')
        (and_then (and_then o λ prev. pure (prev == 1)) λ b. pure (truth b))
tested h =
    bind
      (bind {Q = λ b w'. (prev : ℕ) × (b ≡ (prev == 1)) × Applied _ _ _ prev w'} h
        λ prev w' a. finishes (prev, refl, a))
      λ b w' (prev, e, a). finishes (prev, ap truth e, a)

-- A decrement that answers whether the value replaced was 1.
abbrev pub Decremented : World → Bool → World → Type 0
Decremented w z w' =
    (prev : ℕ) × (z ≡ (prev == 1)) × Applied int_mod (λ p. add32 p minus_one) w prev w'

-- The zero flag of the value left behind.
pub flagged :
    {w : World} {o : Outcome ℕ}
    → Finishes (Applied int_mod (λ p. sub32 p 1) w) o
    → Finishes (Decremented w) (and_then o λ p. pure (sub32 p 1 == 0))
flagged (finishes {a = prev} a) =
    finishes (prev, sub32-eq_zero prev a.kept.found, Applied-cong (sub32-one prev) a)

-- The test on the value that a decrement has left behind.
pub tested_after :
    {w : World} {o : Outcome ℕ}
    → Finishes (Applied int_mod (λ p. sub32 p 1) w) o
    → Finishes
        (λ r w'.
          (prev : ℕ) × (r ≡ truth (prev == 1)) × Applied int_mod (λ p. add32 p minus_one) w prev w')
        (and_then
          (and_then (and_then o λ p. pure (sub32 p 1)) λ v. pure (v == 0))
          λ b. pure (truth b))
tested_after (finishes {a = prev} a) =
    finishes (prev, ap truth (sub32-eq_zero prev a.kept.found), Applied-cong (sub32-one prev) a)

module _ (m : ℕ) (w : World) (r : InRange m w) where
  pub load-Meets : Finishes (Observed m w) (get w)
  load-Meets = mono (get-Observed m w r) λ v w' (o, e). o

  pub store-Meets : (v : ℕ) → v < m → Finishes (Updated m (λ _. v) w) (no_result (set v) w)
  store-Meets v h = updated (mono (set-Applied m w r v h) λ _ w' (prev, a, e). (prev, a))

  -- A barrier changes nothing but the trace, and writes nothing.
  pub load_acquire-Meets :
      (k : Fence)
      → Finishes
          (λ v w'. Observed m w v w' × LoadThenFence v w')
          ((do tmp ← get; barrier k; pure tmp) w)
  unfolding barrier
  load_acquire-Meets k = bind (get-Observed m w r) λ v w' (o, e). finishes (
    record {
      now = o.now;
      none_written = o.none_written;
      kept = record {
        found = o.kept.found;
        range = record { cell = o.kept.range.cell; ahead = o.kept.range.ahead };
        events = o.kept.events;
      };
    },
    (k, w.trace, ap (λ t. fence k ∷ t) e),
  )

  pub store_release-Meets :
      (k : Fence) (v : ℕ)
      → v < m
      → Finishes
          (λ x w'. Updated m (λ _. v) w x w' × FenceThenStore v w')
          (no_result (barrier k >> set v) w)
  unfolding barrier
  store_release-Meets k v h =
      bind (set-Applied m (log (fence k) w) (record { cell = r.cell; ahead = r.ahead }) v h)
        λ _ w' (prev, a, e). finishes (
          (
            prev,
            refl,
            record {
              now = a.now;
              once = a.once;
              kept = record { found = a.kept.found; range = a.kept.range; events = a.kept.events };
            },
          ),
          (k, prev, w.trace, e),
        )

-- The value replaced, computed back from the value left behind.
pub recovered :
    {m : ℕ} {f : ℕ → ℕ} {w : World} {o : Outcome ℕ} (g : ℕ → ℕ)
    → ((p : ℕ) → p < m → g (f p) ≡ p)
    → Finishes (Applied m f w) o
    → Finishes (Applied m f w) (and_then (and_then o λ p. pure (f p)) λ nv. pure (g nv))
recovered {m} {f} {w} g back (finishes {a = p} {w = w'} a) = finishes (rw (back p a.kept.found) a)

-- The value left behind is dropped.
pub discarded_new :
    {m : ℕ} {f : ℕ → ℕ} {w : World} {o : Outcome ℕ} (g : ℕ → ℕ)
    → Finishes (Applied m f w) o
    → Finishes {A = Unit {0}}
        (λ _ w'. (prev : ℕ) × Applied m f w prev w')
        (and_then (and_then o λ p. pure (g p)) λ _. pure tt)
discarded_new g (finishes a) = finishes (_, a)
