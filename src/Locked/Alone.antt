-- ===== src/Locked/Alone.antt =====
-- A call of an operation of src/primitives/opa_by_lock.h that no other thread disturbs.
use open_pa.Base.{
  ℕ, ◌≡◌, ◌==◌, refl, ap, ◌∙◌, subst, inl, inr, Bool-cases, none, some, ◌∷◌, ==-self,
}
use open_pa.Locked.Accesses.{Program, return, load, store, lock, unlock}
use open_pa.Locked.{code}
use open_pa.Locked.Threads.{
  Mutex, Call, Thread, idle, running, Memory, set_thread, System, Step, Reachable,
}
use open_pa.Locked.Body.{run, InSection, IsSection, code-IsSection, run-code, apply, answer}

-- Only the last setting of a thread counts.
set_twice :
    (ts : ℕ → Thread) (i : ℕ) (t u : Thread) (j : ℕ)
    → set_thread (set_thread ts i t) i u j ≡ set_thread ts i u j
set_twice ts i t u j = elim (Bool-cases (i == j)) [ inl e ↦ rw e refl | inr e ↦ rw e refl ]

set_self : (ts : ℕ → Thread) (i : ℕ) (t : Thread) → set_thread ts i t i ≡ t
set_self ts i t = rw (==-self i) refl

module _ (mutex : Mutex) where
  -- The thread that makes the step.
  abbrev pub mover : {s t : System mutex} → Step mutex s t → ℕ
  mover (Step.begin i c e) = i
  mover (Step.enter i c k n e l) = i
  mover (Step.read i c p k e) = i
  mover (Step.change i c p v k e) = i
  mover (Step.leave i c k n e l) = i
  mover (Step.finish i c r e) = i

  -- Thread `i` makes steps, and no other does.
  pub data Alone (i : ℕ) : System mutex → System mutex → Type 0 where
    stop : (s : System mutex) → Alone i s s
    step : {s u t : System mutex} (st : Step mutex s u) → mover st ≡ i → Alone i u t → Alone i s t

  pub Alone-Reachable :
      (m₀ : Memory) (i : ℕ) (s t : System mutex)
      → Reachable mutex m₀ s
      → Alone i s t
      → Reachable mutex m₀ t
  Alone-Reachable m₀ i s t r (Alone.stop _) = r
  Alone-Reachable m₀ i s t r (Alone.step {u} st e a) =
      Alone-Reachable m₀ i u t (Reachable.then r st) a

  -- By steps of thread `i` alone from `s`, it comes back from the call `c` with the result `r`; the mutex
  -- is free then, the memory is `m`, and all else is as in `s`.
  pub record Returned (s : System mutex) (i : ℕ) (c : Call) (m : Memory) (r : ℕ) : Type 0 where
    pub state : System mutex
    pub alone : Alone i s state
    pub threads : (j : ℕ) → state.threads j ≡ set_thread s.threads i idle j
    pub free : mutex.holder state.emulation_lock ≡ none
    pub memory : state.memory ≡ m
    pub history : state.history ≡ record { thread = i; call = c; result = r } ∷ s.history

  -- A step of the thread before its return.
  before :
      (s u : System mutex) (i : ℕ) (c : Call) (m : Memory) (r : ℕ) (t : Thread)
      (st : Step mutex s u)
      → mover st ≡ i
      → u.threads ≡ set_thread s.threads i t
      → u.history ≡ s.history
      → Returned u i c m r
      → Returned s i c m r
  before s u i c m r t st o e f x = record {
    state = x.state;
    alone = step st o x.alone;
    threads =
        λ j. x.threads j ∙ ap (λ ts. set_thread ts i idle j) e ∙ set_twice s.threads i t idle j;
    free = x.free;
    memory = x.memory;
    history = x.history ∙ ap (λ h. record { thread = i; call = c; result = r } ∷ h) f;
  }

  section_Returned :
      (p : Program ℕ) (s : System mutex) (i : ℕ) (c : Call)
      → InSection p
      → s.threads i ≡ running c p
      → mutex.holder s.emulation_lock ≡ some i
      → Returned s i c (run p s.memory).0 (run p s.memory).1
  section_Returned (return r) s i c sec e h = absurd sec
  section_Returned (lock k) s i c sec e h = absurd sec
  section_Returned (load p k) s i c sec e h =
      let v = s.memory p in
      before s _ i c _ _ (running c (k v)) (Step.read i c p k e) refl refl refl
        (section_Returned (k v) _ i c (sec v) (set_self s.threads i (running c (k v))) h)
  section_Returned (store p v k) s i c sec e h =
      before s _ i c _ _ (running c k) (Step.change i c p v k e) refl refl refl
        (section_Returned k _ i c sec (set_self s.threads i (running c k)) h)
  section_Returned (unlock (return r)) s i c sec e h =
      let (n, l) = mutex.unlock_returns i s.emulation_lock h in
      record {
        state = _;
        alone =
            step (Step.leave i c (return r) n e l) refl (
              step (Step.finish i c r (set_self s.threads i (running c (return r)))) refl (stop _));
        threads = λ j. set_twice s.threads i (running c (return r)) idle j;
        free = mutex.unlock_frees i s.emulation_lock n h l;
        memory = refl;
        history = refl;
      }
  section_Returned (unlock (load p k)) s i c sec e h = absurd sec
  section_Returned (unlock (store p v k)) s i c sec e h = absurd sec
  section_Returned (unlock (lock k)) s i c sec e h = absurd sec
  section_Returned (unlock (unlock k)) s i c sec e h = absurd sec

  from_outside :
      (p : Program ℕ) (s : System mutex) (i : ℕ) (c : Call)
      → code c.ptr c.op ≡ p
      → IsSection p
      → s.threads i ≡ idle
      → mutex.holder s.emulation_lock ≡ none
      → Returned s i c (run p s.memory).0 (run p s.memory).1
  from_outside (return r) s i c q sec e h = absurd sec
  from_outside (load p k) s i c q sec e h = absurd sec
  from_outside (store p v k) s i c q sec e h = absurd sec
  from_outside (unlock k) s i c q sec e h = absurd sec
  from_outside (lock k) s i c q sec e h =
      let (n, l) = mutex.lock_returns i s.emulation_lock h in
      let ts = set_thread s.threads i (running c (code c.ptr c.op)) in
      let u : System mutex = record s { threads = ts } in
      let at_lock = set_self s.threads i (running c (code c.ptr c.op)) ∙ ap (running c) q in
      before s u i c _ _ (running c (code c.ptr c.op)) (Step.begin i c e) refl refl refl (
        before u _ i c _ _ (running c k) (Step.enter i c k n at_lock l) refl refl refl (
          section_Returned k _ i c sec (set_self ts i (running c k))
            (mutex.lock_takes i s.emulation_lock n l)))

  -- For any mutex that keeps its documented laws, in any state in which the mutex is free: any call that a
  -- thread outside of every operation begins returns by steps of that thread alone, with the result of the
  -- reference semantics on the value of its variable; it leaves in memory the effect of the reference
  -- semantics on that variable and nothing else, the mutex free, and the other threads where they were.
  pub call-Returned :
      (s : System mutex) (i : ℕ) (c : Call)
      → s.threads i ≡ idle
      → mutex.holder s.emulation_lock ≡ none
      → Returned s i c (apply c s.memory) (answer c s.memory)
  call-Returned s i c e h =
      subst (λ (o : Memory × ℕ). Returned s i c o.0 o.1) (run-code c.ptr c.op s.memory)
        (from_outside (code c.ptr c.op) s i c refl (code-IsSection c.ptr c.op) e h)
