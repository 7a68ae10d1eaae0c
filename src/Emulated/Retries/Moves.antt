-- ===== src/Emulated/Retries/Moves.antt =====
-- The accesses of the retry loops keep the invariant.
use open_pa.Base.{
  sym, ℕ, ◌≡◌, ◌==◌, true, false, Bool-cases, suc, refl, ap, ◌∙◌, subst, inl, inr, arith, ◌∷◌,
  ==-eq, ==-self,
}
use open_pa.Primitives.Reference.{effect, result}
use open_pa.Emulated.Retries.Invariant.{
  kept-effect, stored-effect, op_of, Found-later, Found-changed, Found, IsByCas-stores, each-Found,
  result-same, Inv,
}
use open_pa.Emulated.Retries.{
  load, compare_and_swap, IsByCas, Loop, stores, stored, Worker, idle, linking, storing, loading,
  trying, System, set_worker, set_flag, load_linked, store_conditional, Step, Reachable, start,
}

module _ (v : ℕ) (s : System) (h : Inv v s) where
  worker-Inv :
      (i : ℕ) (w : Worker)
      → Found s.cell (s.reserved i) s.changes w
      → Inv v (record s { workers = set_worker s.workers i w })
  worker-Inv i w f = record {
    legal = h.legal;
    cell = h.cell;
    found = each-Found s.cell s.changes s.reserved s.workers i w f (λ j _. h.found j);
  }

  begin-Inv : (i : ℕ) (l : Loop) → Inv v (record s { workers = set_worker s.workers i (linking l) })
  begin-Inv i l = worker-Inv i (linking l) tt

  -- The others' flags stay when thread `i` sets its own.
  reserve-Inv :
      (i : ℕ) (l : Loop)
      → stores l s.cell ≡ true
      → Inv v (record s {
        reserved = set_flag s.reserved i true;
        workers = set_worker s.workers i (storing l s.cell s.changes);
      })
  reserve-Inv i l e = record {
    legal = h.legal;
    cell = h.cell;
    found =
        each-Found s.cell s.changes (set_flag s.reserved i true) s.workers i
          (storing l s.cell s.changes) (e, inl (rw (==-self i) refl, refl, omega arith))
          (λ j n. rw n (h.found j));
  }

  -- A compare-and-swap that finds another value ends.
  observe-Inv :
      (i : ℕ) (l : Loop)
      → stores l s.cell ≡ false
      → Inv v (record s {
        reserved = set_flag s.reserved i true;
        workers = set_worker s.workers i idle;
        history = record { loop = l; result = s.cell } ∷ s.history;
      })
  observe-Inv i l e = record {
    legal = (result-same l s.cell ∙ ap (result (op_of l)) h.cell, h.legal);
    cell = kept-effect l s.cell e ∙ ap (effect (op_of l)) h.cell;
    found =
        each-Found s.cell s.changes (set_flag s.reserved i true) s.workers i idle tt
          (λ j n. rw n (h.found j));
  }

  link-Inv : (i : ℕ) (l : Loop) → Inv v (load_linked i l s)
  unfolding load_linked
  link-Inv i l = elim (Bool-cases (stores l s.cell)) [
    | inl e ↦ rw e (reserve-Inv i l e)
    | inr e ↦ rw e (observe-Inv i l e)
  ]

  -- What thread `i` has found is what the variable holds.
  still_there :
      (i : ℕ) (l : Loop) (prev seen : ℕ)
      → s.workers i ≡ storing l prev seen
      → s.reserved i ≡ true
      → (stores l prev ≡ true) × (prev ≡ s.cell)
  still_there i l prev seen w e =
      let (b, o) = subst (Found s.cell (s.reserved i) s.changes) w (h.found i) in
      (b, elim o [ inl x ↦ x.1 | inr x ↦ cc (e, x.0) ])

  success-Inv :
      (i : ℕ) (l : Loop) (prev : ℕ)
      → (stores l prev ≡ true) × (prev ≡ s.cell)
      → Inv v (record s {
        cell = stored l prev;
        reserved = λ j. false;
        workers = set_worker s.workers i idle;
        history = record { loop = l; result = prev } ∷ s.history;
        changes = suc s.changes;
      })
  success-Inv i l prev (e, f) = record {
    legal = (result-same l prev ∙ ap (result (op_of l)) (f ∙ h.cell), h.legal);
    cell = stored-effect l prev e ∙ ap (effect (op_of l)) (f ∙ h.cell);
    found =
        each-Found (stored l prev) (suc s.changes) (λ j. false) s.workers i idle tt
          (λ j _.
            Found-changed s.cell (stored l prev) (s.reserved j) s.changes (s.workers j)
              (h.found j));
  }

  store-Inv :
      (i : ℕ) (l : Loop) (prev seen : ℕ)
      → s.workers i ≡ storing l prev seen
      → Inv v (store_conditional i l prev s)
  unfolding store_conditional
  store-Inv i l prev seen w = elim (Bool-cases (s.reserved i)) [
    | inl e ↦ rw e (success-Inv i l prev (still_there i l prev seen w e))
    | inr e ↦ rw e (begin-Inv i l)
  ]

  by_cas : (i : ℕ) (l : Loop) (prev seen : ℕ) → s.workers i ≡ trying l prev seen → IsByCas l
  by_cas i l prev seen w = (subst (Found s.cell (s.reserved i) s.changes) w (h.found i)).0

  load-Inv : (i : ℕ) (l : Loop) → s.workers i ≡ loading l → Inv v (load i l s)
  unfolding load
  load-Inv i l w =
      worker-Inv i (trying l s.cell s.changes)
        (subst (Found s.cell (s.reserved i) s.changes) w (h.found i), inl (refl, omega arith))

  compare-Inv :
      (i : ℕ) (l : Loop) (prev seen : ℕ)
      → s.workers i ≡ trying l prev seen
      → Inv v (compare_and_swap i l prev s)
  unfolding compare_and_swap
  compare-Inv i l prev seen w =
      let b = by_cas i l prev seen w in
      elim (Bool-cases (s.cell == prev)) [
        | inl e ↦
            rw (e, ==-eq s.cell prev e)
              (success-Inv i l prev (IsByCas-stores l prev b, sym (==-eq s.cell prev e)))
        | inr e ↦ rw e (worker-Inv i (trying l s.cell s.changes) (b, inl (refl, omega arith)))
      ]

  lose-Inv :
      (i : ℕ) → Inv v (record s { reserved = set_flag s.reserved i false; changes = suc s.changes })
  lose-Inv i = record {
    legal = h.legal;
    cell = h.cell;
    found = λ j. elim (Bool-cases (i == j)) [
      | inl e ↦
          rw e (Found-changed s.cell s.cell (s.reserved j) s.changes (s.workers j) (h.found j))
      | inr e ↦ rw e (Found-later s.cell (s.reserved j) s.changes (s.workers j) (h.found j))
    ];
  }

Step-Inv : (v : ℕ) (s t : System) → Step s t → Inv v s → Inv v t
Step-Inv v s t (Step.begin i l e) h = begin-Inv v s h i l
Step-Inv v s t (Step.link i l e) h = link-Inv v s h i l
Step-Inv v s t (Step.store i l prev seen e) h = store-Inv v s h i l prev seen e
Step-Inv v s t (Step.begin_by_cas i l e b) h = worker-Inv v s h i (loading l) b
Step-Inv v s t (Step.first_load i l e) h = load-Inv v s h i l e
Step-Inv v s t (Step.compare i l prev seen e) h = compare-Inv v s h i l prev seen e
Step-Inv v s t (Step.lose i) h = lose-Inv v s h i

pub Reachable-Inv : (v : ℕ) (s : System) → Reachable v s → Inv v s
Reachable-Inv v s start = record { legal = tt; cell = refl; found = λ i. tt }
Reachable-Inv v s (Reachable.then {s = u} r st) = Step-Inv v u s st (Reachable-Inv v u r)
