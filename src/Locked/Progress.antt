-- ===== src/Locked/Progress.antt =====
-- While some thread is inside an operation of src/primitives/opa_by_lock.h, some thread gets on.
use open_pa.Base.{ℕ, ◌≡◌, suc, refl, sym, ap, ◌∙◌, subst, inl, inr, Option, none, some, ==-self}
use open_pa.Locked.Accesses.{Program, return, load, store, lock, unlock}
use open_pa.Locked.Threads.{
  Mutex, Call, Thread, idle, running, Memory, write, set_thread, System, Step, Reachable,
}
use open_pa.Locked.Body.{InSection, IsSection, code-IsSection}
use open_pa.Locked.Invariant.{Stage, Inv}
use open_pa.Locked.Order.{Reachable-Inv}

-- How many steps are left of a run that nobody disturbs.
abbrev pub steps : Program ℕ → Memory → ℕ
steps (return r) m = 1
steps (load p k) m = suc (steps (k (m p)) m)
steps (store p v k) m = suc (steps k (write m p v))
steps (lock k) m = suc (steps k m)
steps (unlock k) m = suc (steps k m)

abbrev pub left : Thread → Memory → ℕ
left idle m = 0
left (running c k) m = steps k m

module _ (mutex : Mutex) (m₀ : Memory) where
  -- Thread `j` can make a step, and then has one step fewer to make.
  abbrev pub GetsOn : System mutex → ℕ → Type 0
  GetsOn s j =
      (t : System mutex) × Step mutex s t
      × (left (s.threads j) s.memory ≡ suc (left (t.threads j) t.memory))

  module _ (s : System mutex) where
    here :
        (i : ℕ) (m : Memory) (t u : Thread) (n : ℕ)
        → s.threads i ≡ t
        → left t s.memory ≡ suc (left u m)
        → left (s.threads i) s.memory ≡ suc (left (set_thread s.threads i u i) m)
    here i m t u n e h = rw (e, ==-self i) h

    -- The holder of the lock gets on.
    inside-GetsOn :
        (i : ℕ) (c : Call) (k : Program ℕ)
        → s.threads i ≡ running c k
        → InSection k
        → mutex.holder s.emulation_lock ≡ some i
        → GetsOn s i
    inside-GetsOn i c (return r) e sec h = absurd sec
    inside-GetsOn i c (lock k) e sec h = absurd sec
    inside-GetsOn i c (load p k) e sec h =
        (_, Step.read i c p k e, here i _ _ (running c (k (s.memory p))) 0 e refl)
    inside-GetsOn i c (store p v k) e sec h =
        (_, Step.change i c p v k e, here i (write s.memory p v) _ (running c k) 0 e refl)
    inside-GetsOn i c (unlock k) e sec h =
        let (n, l) = mutex.unlock_returns i s.emulation_lock h in
        (_, Step.leave i c k n e l, here i _ _ (running c k) 0 e refl)

    -- When the lock is free every thread inside an operation gets on.
    section-GetsOn :
        (i : ℕ) (c : Call) (k : Program ℕ)
        → s.threads i ≡ running c k
        → IsSection k
        → mutex.holder s.emulation_lock ≡ none
        → GetsOn s i
    section-GetsOn i c (return r) e sec h = absurd sec
    section-GetsOn i c (load p k) e sec h = absurd sec
    section-GetsOn i c (store p v k) e sec h = absurd sec
    section-GetsOn i c (unlock k) e sec h = absurd sec
    section-GetsOn i c (lock k) e sec h =
        let (n, l) = mutex.lock_returns i s.emulation_lock h in
        (_, Step.enter i c k n e l, here i _ _ (running c k) 0 e refl)

    finish-GetsOn : (i r : ℕ) (c : Call) → s.threads i ≡ running c (return r) → GetsOn s i
    finish-GetsOn i r c e = (_, Step.finish i c r e, here i _ _ idle 0 e refl)

    free-GetsOn :
        (i : ℕ) (c : Call) (k : Program ℕ)
        → s.threads i ≡ running c k
        → Inv mutex m₀ s
        → mutex.holder s.emulation_lock ≡ none
        → GetsOn s i
    free-GetsOn i c k e h n = elim (subst (Stage _ _ _ _ i) e (h.stages i)) [
      | inl x ↦ section-GetsOn i c k e (subst IsSection (sym x.0) (code-IsSection c.ptr c.op)) n
      | inr y ↦ elim y [ inl x ↦ cc (x.0) | inr x ↦ finish-GetsOn i x.0 c (e ∙ ap (running c) x.1) ]
    ]

    taken-GetsOn :
        (i : ℕ) (t : Thread)
        → s.threads i ≡ t
        → Inv mutex m₀ s
        → mutex.holder s.emulation_lock ≡ some i
        → GetsOn s i
    taken-GetsOn i idle e h n = absurd (subst (Stage _ _ _ _ i) e (h.stages i) n)
    taken-GetsOn i (running c k) e h n = elim (subst (Stage _ _ _ _ i) e (h.stages i)) [
      | inl x ↦ absurd (x.1 n)
      | inr y ↦ elim y [ inl x ↦ inside-GetsOn i c k e x.1 n | inr x ↦ absurd (x.2 n) ]
    ]

    by_holder :
        (o : Option ℕ)
        → mutex.holder s.emulation_lock ≡ o
        → (i : ℕ) (c : Call) (k : Program ℕ) → s.threads i ≡ running c k
        → Inv mutex m₀ s
        → (j : ℕ) × GetsOn s j
    by_holder none n i c k e h = (i, free-GetsOn i c k e h n)
    by_holder (some j) n i c k e h = (j, taken-GetsOn j (s.threads j) refl h n)

  -- For any mutex that keeps its documented laws, after any steps that leave some thread inside an
  -- operation: some thread can make a step, after which it has one step fewer to make.
  pub no_deadlock :
      (s : System mutex) (i : ℕ) (c : Call) (k : Program ℕ)
      → Reachable mutex m₀ s
      → s.threads i ≡ running c k
      → (j : ℕ) × GetsOn s j
  no_deadlock s i c k r e = by_holder s _ refl i c k e (Reachable-Inv mutex m₀ s r)
