-- ===== src/Cell/Actions.antt =====
-- Each action on an atomic variable meets its specification in every world.
use open_pa.Base.{
  ◌⊎◌, ap, ℕ, ◌≡◌, ◌∙◌, subst, List, refl, Bool, true, false, ◌∷◌, ◌==◌, length, ◌<◌, arith, inl,
  inr, Bool-cases, ==-eq, ==-ne,
}
use open_pa.Cell.{
  replace, Access, read, wrote, World, settle, get, set, fetch_modify, compare_exchange, load_link,
  store_conditional,
}
use open_pa.Cell.Laws.{
  Finishes, finishes, writes, InRange, Kept, Applied, Observed, Swapped, hit, miss, settle-trace,
  settle-ahead-le, settle-InRange, settle-cases, settle-linked,
}

-- After a load-link that returned `prev`.
pub record Linked (m : ℕ) (w : World) (prev : ℕ) (w' : World) : Type 0 where
  pub seen : Observed m w prev w'
  pub reserved : w'.linked ≡ true

-- A store-conditional after a load-link that returned `prev`. It fails only at another event.
pub data Conditional (m prev v : ℕ) (w : World) : Bool → World → Type 0 where
  stored : {w' : World} → Applied m (λ _. v) w prev w' → Conditional m prev v w true w'
  failed :
      {w' : World}
      → writes w'.trace ≡ writes w.trace
      → InRange m w'
      → length w'.ahead < length w.ahead
      → Conditional m prev v w false w'

module _ (m : ℕ) (w : World) (r : InRange m w) where
  -- An access changes the value, the reservation and the trace, and not what lies ahead.
  keep :
      (v : ℕ) (b : Bool) (t : List Access)
      → v < m
      → Kept m w (settle w).cell (record (settle w) { cell = v; linked = b; trace = t })
  keep v b t h = record {
    found = (settle-InRange m w r).cell;
    range = record { cell = h; ahead = (settle-InRange m w r).ahead };
    events = settle-ahead-le w;
  }

  observe :
      (b : Bool)
      → Observed m w
          (settle w).cell
          (record (settle w) { linked = b; trace = read (settle w).cell ∷ (settle w).trace })
  observe b = record {
    now = refl;
    none_written = rw (settle-trace w) refl;
    kept = keep _ _ _ (settle-InRange m w r).cell;
  }

  apply :
      (f : ℕ → ℕ)
      → f (settle w).cell < m
      → Applied m f w (settle w).cell (record (settle w) {
        cell = f (settle w).cell;
        linked = false;
        trace = wrote (settle w).cell (f (settle w).cell) ∷ (settle w).trace;
      })
  apply f h = record { now = refl; once = rw (settle-trace w) refl; kept = keep _ _ _ h }

  -- A load, with its place in the trace.
  pub get-Observed : Finishes (λ v w'. Observed m w v w' × (w'.trace ≡ read v ∷ w.trace)) (get w)
  unfolding get
  get-Observed = finishes (observe _, ap (λ t. read (settle w).cell ∷ t) (settle-trace w))

  -- A store, with its place in the trace.
  pub set-Applied :
      (v : ℕ)
      → v < m
      → Finishes
          (λ _ w'. (prev : ℕ) × Applied m (λ _. v) w prev w' × (w'.trace ≡ wrote prev v ∷ w.trace))
          (set v w)
  unfolding set
  set-Applied v h =
      finishes (_, apply (λ _. v) h, ap (λ t. wrote (settle w).cell v ∷ t) (settle-trace w))

  pub fetch_modify-Applied :
      (f : ℕ → ℕ) → ((v : ℕ) → v < m → f v < m) → Finishes (Applied m f w) (fetch_modify f w)
  unfolding fetch_modify
  fetch_modify-Applied f h = finishes (apply f (h _ (settle-InRange m w r).cell))

  pub compare_exchange-Swapped :
      (old new : ℕ) → new < m → Finishes (Swapped m old new w) (compare_exchange old new w)
  unfolding compare_exchange
  compare_exchange-Swapped old new h = elim (Bool-cases ((settle w).cell == old)) [
    | inl same ↦ rw same (finishes (hit (==-eq _ _ same) (apply (λ _. new) h)))
    | inr other ↦ rw other (finishes (miss (==-ne _ _ other) (observe _)))
  ]

  pub load_link-Linked : Finishes (Linked m w) (load_link w)
  unfolding load_link
  load_link-Linked = finishes (record { seen = observe true; reserved = refl })

  pub store_conditional-Conditional :
      (prev v : ℕ)
      → v < m
      → w.linked ≡ true
      → w.cell ≡ prev
      → Finishes (Conditional m prev v w) (store_conditional v w)
  unfolding store_conditional
  store_conditional-Conditional prev v h reserved e = elim (Bool-cases (settle w).linked) [
    | inl still ↦
        let same : (settle w).cell ≡ prev = settle-linked w still ∙ e in
        rw still (
          finishes (
            stored
              (subst (λ p. Applied m (λ _. v) w p (replace v (settle w))) same (apply (λ _. v) h))))
    | inr lost ↦
        let silent : writes (settle w).trace ≡ writes w.trace = rw (settle-trace w) refl in
        let fewer : length (settle w).ahead < length w.ahead = ground (arith, settle-cases w) in
        simp lost (finishes (failed silent (settle-InRange m w r) fewer))
  ]

  -- Where the value was `old` at the last look, a miss has used up an event.
  pub compare_exchange-retry :
      (old new : ℕ)
      → new < m
      → w.cell ≡ old
      → Finishes
          (λ p w'. Swapped m old new w p w' × ((p ≡ old) ⊎ (length w'.ahead < length w.ahead)))
          (compare_exchange old new w)
  unfolding compare_exchange
  compare_exchange-retry old new h e = elim (Bool-cases ((settle w).cell == old)) [
    | inl same ↦
        rw same (finishes (hit (==-eq _ _ same) (apply (λ _. new) h), inl (==-eq _ _ same)))
    | inr other ↦
        let fewer : length (settle w).ahead < length w.ahead = ground (arith, settle-cases w) in
        rw other (finishes (miss (==-ne _ _ other) (observe _), inr fewer))
  ]
