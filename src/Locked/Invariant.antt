-- ===== src/Locked/Invariant.antt =====
-- What holds between the accesses of the threads that use src/primitives/opa_by_lock.h.
use open_pa.Base.{
  ℕ, ◌≡◌, ◌==◌, if◌then◌else◌, ◌∙◌, subst, Bool-cases, inl, inr, ◌⊎◌, Option, none, some, List, [],
  ◌∷◌, ==-eq, ==-ne,
}
use open_pa.Locked.Accesses.{Program, return, lock}
use open_pa.Locked.{code}
use open_pa.Locked.Threads.{Mutex, Call, Thread, idle, running, Entry, Memory, set_thread, System}
use open_pa.Locked.Body.{run, InSection, IsSection, apply, answer}

-- The memory after a history of calls in one piece each.
abbrev pub replay : Memory → List Entry → Memory
replay m [] = m
replay m (e ∷ es) = apply e.call (replay m es)

-- Every call of the history returned what it returns in one piece.
abbrev pub IsLegal : Memory → List Entry → Type 0
IsLegal m [] = Unit
IsLegal m (e ∷ es) = (e.result ≡ answer e.call (replay m es)) × IsLegal m es

-- The last call of a thread in the history, and its result.
abbrev pub latest : ℕ → List Entry → Option (Call × ℕ)
latest i [] = none
latest i (e ∷ es) = if e.thread == i then some (e.call, e.result) else latest i es

-- Where a thread stands: outside; before the lock; inside, where what is left of its operation will
-- leave what the call leaves in one piece; or behind the unlock, with its result in the history.
abbrev pub Stage : Option ℕ → Memory → Memory → List Entry → ℕ → Thread → Type 0
Stage h m b es i idle = h ≡ some i → ⊥
Stage h m b es i (running c k) =
    ((k ≡ code c.ptr c.op) × (h ≡ some i → ⊥))
    ⊎ ((h ≡ some i) × InSection k × (run k m ≡ (apply c b, answer c b)))
    ⊎ ((r : ℕ) × (k ≡ return r) × (h ≡ some i → ⊥) × (latest i es ≡ some (c, r)))

-- Neither before nor now the thread holds the lock.
pub away :
    (h h' : Option ℕ) (m m' b b' : Memory) (es es' : List Entry) (j : ℕ) (t : Thread)
    → (h ≡ some j → ⊥)
    → (h' ≡ some j → ⊥)
    → latest j es' ≡ latest j es
    → Stage h m b es j t
    → Stage h' m' b' es' j t
away h h' m m' b b' es es' j idle n n' l s = n'
away h h' m m' b b' es es' j (running c k) n n' l (inl (e, _)) = inl (e, n')
away h h' m m' b b' es es' j (running c k) n n' l (inr (inl (e, _, _))) = absurd (n e)
away h h' m m' b b' es es' j (running c k) n n' l (inr (inr (r, e, _, f))) =
    inr (inr (r, e, n', l ∙ f))

pub section_starts : (p : Program ℕ) (k : Program ℕ) → p ≡ lock k → IsSection p → InSection k
section_starts p k e h = subst IsSection e h

pub some_inj : {i j : ℕ} → some i ≡ some j → i ≡ j
some_inj e = cc

module _ (mutex : Mutex) (m₀ : Memory) where
  pub record Inv (s : System mutex) : Type 0 where
    pub legal : IsLegal m₀ s.history
    pub free : mutex.holder s.emulation_lock ≡ none → s.memory ≡ replay m₀ s.history
    pub stages :
        (i : ℕ)
        → Stage
            (mutex.holder s.emulation_lock)
            s.memory
            (replay m₀ s.history)
            s.history
            i
            (s.threads i)

  pub each-Stage :
      (h : Option ℕ) (m b : Memory) (es : List Entry) (ts : ℕ → Thread) (i : ℕ) (t : Thread)
      → Stage h m b es i t
      → ((j : ℕ) → (i ≡ j → ⊥) → Stage h m b es j (ts j))
      → (j : ℕ) → Stage h m b es j (set_thread ts i t j)
  each-Stage h m b es ts i t o k j = elim (Bool-cases (i == j)) [
    | inl e ↦ rw e (subst (λ x. Stage h m b es x t) (==-eq i j e) o)
    | inr e ↦ rw e (k j (==-ne i j e))
  ]

  module _ (s : System mutex) (h : Inv s) (i : ℕ) where
    abbrev pub held : Option ℕ
    held = mutex.holder s.emulation_lock

    abbrev pub base : Memory
    base = replay m₀ s.history

    pub stage : {t : Thread} → s.threads i ≡ t → Stage held s.memory base s.history i t
    stage e = subst (Stage held s.memory base s.history i) e (h.stages i)

    -- Inside the critical section the thread holds the lock, and nobody else does.
    pub inside :
        {c : Call} {k : Program ℕ}
        → s.threads i ≡ running c k
        → (k ≡ code c.ptr c.op → ⊥)
        → ((r : ℕ) → k ≡ return r → ⊥)
        → (held ≡ some i) × InSection k × (run k s.memory ≡ (apply c base, answer c base))
    inside e n n' = elim (stage e) [
      | inl x ↦ absurd (n x.0)
      | inr y ↦ elim y [ inl x ↦ x | inr x ↦ absurd (n' x.0 x.1) ]
    ]
