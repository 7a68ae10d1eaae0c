-- ===== src/Locked/Moves.antt =====
-- Every step of a thread that uses src/primitives/opa_by_lock.h keeps the invariant.
use open_pa.Base.{
  ℕ, ◌≡◌, refl, sym, ap, ◌∙◌, subst, inl, inr, arith, Option, none, some, List, ◌∷◌, ==-self,
}
use open_pa.Locked.Accesses.{Program, return, load, store, lock, unlock}
use open_pa.Locked.{code}
use open_pa.Locked.Threads.{
  Mutex, Call, idle, running, Entry, Memory, write, set_thread, outcome, System,
}
use open_pa.Locked.Body.{run, IsSection, Returns, apply, answer, code-IsSection, run-code}
use open_pa.Locked.Invariant.{replay, latest, away, each-Stage, stage, inside, Inv, some_inj}

pub returns : (k : Program ℕ) → Returns k → k ≡ return (outcome k)
returns (return r) h = refl
returns (load p k) h = absurd h
returns (store p v k) h = absurd h
returns (lock k) h = absurd h
returns (unlock k) h = absurd h

latest_self :
    (i : ℕ) (c : Call) (r : ℕ) (es : List Entry)
    → latest i (record { thread = i; call = c; result = r } ∷ es) ≡ some (c, r)
latest_self i c r es = rw (==-self i) refl

latest-other :
    (i j : ℕ) (c : Call) (r : ℕ) (es : List Entry)
    → (i ≡ j → ⊥)
    → latest j (record { thread = i; call = c; result = r } ∷ es) ≡ latest j es
latest-other i j c r es n = ground (arith, n)

pub some-none : {i : ℕ} {o : Option ℕ} → o ≡ none → o ≡ some i → ⊥
some-none e f = cc

others : {i j : ℕ} {o : Option ℕ} → o ≡ some i → (i ≡ j → ⊥) → o ≡ some j → ⊥
others e n f = n (some_inj (sym e ∙ f))

module _ (mutex : Mutex) (m₀ : Memory) (s : System mutex) (h : Inv mutex m₀ s) (i : ℕ)
    (c : Call) where
  not_code : {k : Program ℕ} → (IsSection k → ⊥) → k ≡ code c.ptr c.op → ⊥
  not_code n e = n (subst IsSection (sym e) (code-IsSection c.ptr c.op))

  pub begin-Inv :
      s.threads i ≡ idle
      → Inv mutex m₀ (record s { threads = set_thread s.threads i (running c (code c.ptr c.op)) })
  begin-Inv e = record {
    legal = h.legal;
    free = h.free;
    stages =
        each-Stage mutex m₀ _ _ _ _ s.threads i _ (inl (refl, stage mutex m₀ s h i e))
          λ j _. h.stages j;
  }

  pub finish-Inv :
      (r : ℕ)
      → s.threads i ≡ running c (return r)
      → Inv mutex m₀ (record s { threads = set_thread s.threads i idle })
  finish-Inv r e = record {
    legal = h.legal;
    free = h.free;
    stages =
        each-Stage mutex m₀ _ _ _ _ s.threads i _
          (elim (stage mutex m₀ s h i e) [
            | inl x ↦ x.1
            | inr y ↦ elim y [ inl x ↦ absurd x.1 | inr x ↦ x.2 ]
          ])
          λ j _. h.stages j;
  }

  pub read-Inv :
      (p : ℕ) (k : ℕ → Program ℕ)
      → s.threads i ≡ running c (load p k)
      → Inv mutex m₀ (record s { threads = set_thread s.threads i (running c (k (s.memory p))) })
  read-Inv p k e =
      let (hold, sec, eq) = inside mutex m₀ s h i e (not_code (λ x. x)) (λ r x. cc) in
      record {
        legal = h.legal;
        free = h.free;
        stages =
            each-Stage mutex m₀ _ _ _ _ s.threads i _ (inr (inl (hold, sec (s.memory p), eq)))
              λ j _. h.stages j;
      }

  pub change-Inv :
      (p v : ℕ) (k : Program ℕ)
      → s.threads i ≡ running c (store p v k)
      → Inv mutex m₀
          (record s { memory = write s.memory p v; threads = set_thread s.threads i (running c k) })
  change-Inv p v k e =
      let (hold, sec, eq) = inside mutex m₀ s h i e (not_code (λ x. x)) (λ r x. cc) in
      record {
        legal = h.legal;
        free = λ n. absurd (some-none n hold);
        stages = each-Stage mutex m₀ _ _ _ _ s.threads i _ (inr (inl (hold, sec, eq))) λ j d.
            away _ _ _ _ _ _ _ _ j (s.threads j) (others hold d) (others hold d) refl (h.stages j);
      }

  pub enter-Inv :
      (k : Program ℕ) (n : mutex.State)
      → s.threads i ≡ running c (lock k)
      → mutex.lock i s.emulation_lock n
      → Inv mutex m₀
          (record s { emulation_lock = n; threads = set_thread s.threads i (running c k) })
  enter-Inv k n e l =
      let free = mutex.lock_waits i s.emulation_lock n l in
      let taken = mutex.lock_takes i s.emulation_lock n l in
      let whole : lock k ≡ code c.ptr c.op = elim (stage mutex m₀ s h i e) [
        | inl x ↦ x.0
        | inr y ↦ elim y [ inl x ↦ absurd x.1 | inr x ↦ cc (x.1) ]
      ] in
      record {
        legal = h.legal;
        free = λ x. absurd (some-none x taken);
        stages =
            each-Stage mutex m₀ _ _ _ _ s.threads i _
              (inr (
                inl (
                  taken,
                  subst IsSection (sym whole) (code-IsSection c.ptr c.op),
                  ap (λ p. run p s.memory) whole
                      ∙ run-code c.ptr c.op s.memory
                      ∙ ap (λ m. (apply c m, answer c m)) (h.free free),
                )))
              λ j d.
                away _ _ _ _ _ _ _ _ j (s.threads j) (some-none free) (others taken d) refl
                  (h.stages j);
      }

  pub leave-Inv :
      (k : Program ℕ) (n : mutex.State)
      → s.threads i ≡ running c (unlock k)
      → mutex.unlock i s.emulation_lock n
      → Inv mutex m₀ (record s {
        emulation_lock = n;
        threads = set_thread s.threads i (running c k);
        history = record { thread = i; call = c; result = outcome k } ∷ s.history;
      })
  leave-Inv k n e l =
      let (hold, sec, eq) = inside mutex m₀ s h i e (not_code (λ x. x)) (λ r x. cc) in
      let freed = mutex.unlock_frees i s.emulation_lock n hold l in
      let log : List Entry = record { thread = i; call = c; result = outcome k } ∷ s.history in
      let done : (s.memory, outcome k)
          ≡ (apply c (replay m₀ s.history), answer c (replay m₀ s.history)) =
        ap (λ p. run p s.memory) (sym (returns k sec)) ∙ eq in
      record {
        legal = (ap (λ x. x.1) done, h.legal);
        free = λ _. ap (λ x. x.0) done;
        stages =
            each-Stage mutex m₀ _ _ _ log s.threads i _
              (inr (
                inr (
                  outcome k,
                  returns k sec,
                  some-none freed,
                  latest_self i c (outcome k) s.history,
                )))
              λ j d.
                away _ _ _ _ _ _ _ log j (s.threads j) (others hold d) (some-none freed)
                  (latest-other i j c (outcome k) s.history d) (h.stages j);
      }
