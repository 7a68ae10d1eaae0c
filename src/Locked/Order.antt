-- ===== src/Locked/Order.antt =====
-- The operations of src/primitives/opa_by_lock.h are atomic, and they end.
use open_pa.Base.{ℕ, ◌≡◌, refl, sym, ap, ◌∙◌, subst, inl, inr, none, some}
use open_pa.Locked.Accesses.{Program, return, load, store, lock, unlock}
use open_pa.Locked.Threads.{Mutex, Call, running, Memory, outcome, System, Step, Reachable, start}
use open_pa.Locked.Body.{InSection, IsSection, code-IsSection}
use open_pa.Locked.Invariant.{replay, IsLegal, latest, Stage, Inv, some_inj}
use open_pa.Locked.Moves.{
  begin-Inv, finish-Inv, read-Inv, change-Inv, enter-Inv, leave-Inv, some-none,
}

section_inside : (p : Program ℕ) → IsSection p → InSection p → ⊥
section_inside (return r) h k = h
section_inside (load p l) h k = h
section_inside (store p v l) h k = h
section_inside (lock l) h k = k
section_inside (unlock l) h k = h

module _ (mutex : Mutex) (m₀ : Memory) where
  Step-Inv : (s t : System mutex) → Step mutex s t → Inv mutex m₀ s → Inv mutex m₀ t
  Step-Inv s t (Step.begin i c e) h = begin-Inv mutex m₀ s h i c e
  Step-Inv s t (Step.enter i c k n e l) h = enter-Inv mutex m₀ s h i c k n e l
  Step-Inv s t (Step.read i c p k e) h = read-Inv mutex m₀ s h i c p k e
  Step-Inv s t (Step.change i c p v k e) h = change-Inv mutex m₀ s h i c p v k e
  Step-Inv s t (Step.leave i c k n e l) h = leave-Inv mutex m₀ s h i c k n e l
  Step-Inv s t (Step.finish i c r e) h = finish-Inv mutex m₀ s h i c r e

  pub Reachable-Inv : (s : System mutex) → Reachable mutex m₀ s → Inv mutex m₀ s
  Reachable-Inv s start = record {
    legal = tt;
    free = λ _. refl;
    stages = λ i. some-none mutex.unlocked-holder;
  }
  Reachable-Inv s (Reachable.then {s = u} r st) = Step-Inv u s st (Reachable-Inv u r)

  -- For any mutex that keeps its documented laws, from any memory, after any steps of any threads: in
  -- the order of their critical sections, each call has had the result of the reference semantics on
  -- the value that the calls before it leave in its variable.
  pub linearizable : (s : System mutex) → Reachable mutex m₀ s → IsLegal m₀ s.history
  linearizable s r = (Reachable-Inv s r).legal

  -- Whenever a mutex that keeps its documented laws is free, after any steps of any threads, memory
  -- holds what the effects of the reference semantics, one call after another in the order of their
  -- critical sections, make of the memory at the start.
  pub memory-replay :
      (s : System mutex)
      → Reachable mutex m₀ s
      → mutex.holder s.emulation_lock ≡ none
      → s.memory ≡ replay m₀ s.history
  memory-replay s r n = (Reachable-Inv s r).free n

  -- For any mutex that keeps its documented laws, after any steps: the result with which a thread is
  -- about to return is that of its latest entry in the history, and that entry is for the call that
  -- it returns from.
  pub result_in-history :
      (s : System mutex) (i r : ℕ) (c : Call)
      → Reachable mutex m₀ s
      → s.threads i ≡ running c (return r)
      → latest i s.history ≡ some (c, r)
  result_in-history s i r c reach e =
      elim (subst (Stage (mutex.holder s.emulation_lock) s.memory (replay m₀ s.history) s.history i)
        e ((Reachable-Inv s reach).stages i)) [
          | inl x ↦ absurd (subst IsSection (sym x.0) (code-IsSection c.ptr c.op))
          | inr y ↦ elim y [
            | inl x ↦ absurd x.1
            | inr x ↦ x.3 ∙ ap (λ k. some (c, outcome k)) (sym x.1)
          ]
        ]

  pub holds_lock :
      (s : System mutex) (h : Inv mutex m₀ s) (i : ℕ) (c : Call) (k : Program ℕ)
      → s.threads i ≡ running c k
      → InSection k
      → mutex.holder s.emulation_lock ≡ some i
  holds_lock s h i c k e sec =
      elim (subst (Stage (mutex.holder s.emulation_lock) s.memory (replay m₀ s.history) s.history i)
        e (h.stages i)) [
          | inl x ↦
              absurd (section_inside k (subst IsSection (sym x.0) (code-IsSection c.ptr c.op)) sec)
          | inr y ↦ elim y [ inl x ↦ x.0 | inr x ↦ absurd (subst InSection x.1 sec) ]
        ]

  -- For any mutex that keeps its documented laws, after any steps: two threads that are both inside the
  -- critical section of an operation are the same.
  pub mutual_exclusion :
      (s : System mutex) (i j : ℕ) (c d : Call) (k l : Program ℕ)
      → Reachable mutex m₀ s
      → s.threads i ≡ running c k
      → InSection k
      → s.threads j ≡ running d l
      → InSection l
      → i ≡ j
  mutual_exclusion s i j c d k l r e x f y =
      let h = Reachable-Inv s r in
      some_inj (sym (holds_lock s h i c k e x) ∙ holds_lock s h j d l f y)
