-- ===== src/Locked/Init.antt =====
-- OPA_Interprocess_lock_init of src/opa_primitives.c, which every process calls once with the place of the
-- lock in shared memory.
use open_pa.Base.{
  zero, suc, replicate, ℕ, ◌≡◌, ◌≢◌, ◌==◌, if◌then◌else◌, Bool, true, false, not, refl, ap, inl,
  inr, Bool-cases, List, [], ◌∷◌, ◌++◌, ==-eq, ==-ne,
}

-- The three calls of the pthread library that the leader makes, on a state of the library that all
-- processes share: the error code, 0 for success, and the state afterwards.
pub record Pthread : Type 1 where
  pub State : Type 0
  pub mutexattr_init : State → ℕ × State
  pub mutexattr_setpshared : State → ℕ × State
  pub mutex_init : (lock : ℕ) → State → ℕ × State

abbrev pub err_intern : ℕ
err_intern = 16

module _ (lib : Pthread) where
  -- `||`: the next call is made only if the one before has returned 0.
  abbrev pub or_else :
      (lib.State → ℕ × lib.State) → (lib.State → Bool × lib.State) → lib.State → Bool × lib.State
  or_else call rest s = let (code, s') = call s in if not (code == 0) then (true, s') else rest s'

  abbrev pub last_call : (lib.State → ℕ × lib.State) → lib.State → Bool × lib.State
  last_call call s = let (code, s') = call s in (not (code == 0), s')

  -- The condition of the leader's `if`.
  unfoldable pub leader_fails : (lock : ℕ) → lib.State → Bool × lib.State
  leader_fails lock =
      or_else lib.mutexattr_init
        (or_else lib.mutexattr_setpshared (last_call (lib.mutex_init lock)))

  -- The error code, what the process's OPA_emulation_lock holds afterwards, and the library's state.
  unfoldable pub interprocess_lock_init :
      (emulation_lock shm_lock : ℕ) → (is_leader : Bool) → lib.State → ℕ × ℕ × lib.State
  unfolding leader_fails
  interprocess_lock_init emulation_lock shm_lock is_leader s =
      if is_leader
      then (let (fails, s') = leader_fails shm_lock s in
          (if fails then err_intern else 0, shm_lock, s'))
      else (0, shm_lock, s)

  -- A call that returns 0.
  abbrev pub Succeeds : (lib.State → ℕ × lib.State) → lib.State → lib.State → Type 0
  Succeeds call s s' = call s ≡ (0, s')

  pub data Fails (call : lib.State → ℕ × lib.State) (s s' : lib.State) : Type 0 where
    failed : (code : ℕ) → code ≢ 0 → call s ≡ (code, s') → Fails call s s'

  -- What the leader's calls come to: all three succeed, or the first that fails is the last.
  pub data Leader (lock : ℕ) (s : lib.State) : ℕ → lib.State → Type 0 where
    all :
        (s₁ s₂ s₃ : lib.State)
        → Succeeds lib.mutexattr_init s s₁
        → Succeeds lib.mutexattr_setpshared s₁ s₂
        → Succeeds (lib.mutex_init lock) s₂ s₃
        → Leader lock s 0 s₃
    first : (s₁ : lib.State) → Fails lib.mutexattr_init s s₁ → Leader lock s err_intern s₁
    second :
        (s₁ s₂ : lib.State)
        → Succeeds lib.mutexattr_init s s₁
        → Fails lib.mutexattr_setpshared s₁ s₂
        → Leader lock s err_intern s₂
    third :
        (s₁ s₂ s₃ : lib.State)
        → Succeeds lib.mutexattr_init s s₁
        → Succeeds lib.mutexattr_setpshared s₁ s₂
        → Fails (lib.mutex_init lock) s₂ s₃
        → Leader lock s err_intern s₃

  -- One call, with what the source tests of it.
  data Tested (call : lib.State → ℕ × lib.State) (s : lib.State) : Type 0 where
    success : (s' : lib.State) → call s ≡ (0, s') → Tested call s
    failure :
        (code : ℕ) (s' : lib.State) → call s ≡ (code, s') → (code == 0) ≡ false → Tested call s

  tested : (call : lib.State → ℕ × lib.State) (s : lib.State) → Tested call s
  tested call s = elim (Bool-cases ((call s).0 == 0)) [
    | inl e ↦ success (call s).1 (ap (λ c. (c, (call s).1)) (==-eq _ _ e))
    | inr e ↦ failure (call s).0 (call s).1 refl e
  ]

  -- The result and the state of the leader's call.
  abbrev pub LeaderEnds : (lock : ℕ) → lib.State → ℕ × ℕ × lib.State → Type 0
  LeaderEnds lock s (code, l, s') = (l ≡ lock) × Leader lock s code s'

  -- The leader's call leaves the process with the lock, and makes the library's calls in order up to
  -- the first that fails; it returns 0 if all three succeed and the internal error if one fails.
  pub interprocess_lock_init-leader :
      (old lock : ℕ) (s : lib.State) → LeaderEnds lock s (interprocess_lock_init old lock true s)
  unfolding interprocess_lock_init leader_fails
  interprocess_lock_init-leader old lock s = elim (tested lib.mutexattr_init s) [
    | failure c s₁ e n ↦ rw (e, n) (refl, Leader.first s₁ (failed c (==-ne c 0 n) e))
    | success s₁ e ↦ elim (tested lib.mutexattr_setpshared s₁) [
      | failure c s₂ f n ↦ rw (e, f, n) (refl, Leader.second s₁ s₂ e (failed c (==-ne c 0 n) f))
      | success s₂ f ↦ elim (tested (lib.mutex_init lock) s₂) [
        | failure c s₃ g n ↦
            rw (e, f, g, n) (refl, Leader.third s₁ s₂ s₃ e f (failed c (==-ne c 0 n) g))
        | success s₃ g ↦ rw (e, f, g) (refl, Leader.all s₁ s₂ s₃ e f g)
      ]
    ]
  ]

  -- The calls of several processes, one after another: what each returns and holds, and the state.
  abbrev pub init_all : (lock : ℕ) → List Bool → lib.State → List (ℕ × ℕ) × lib.State
  init_all lock [] s = ([], s)
  init_all lock (b ∷ bs) s =
      let (code, l, s') = interprocess_lock_init 0 lock b s in
      let (rest, s'') = init_all lock bs s' in ((code, l) ∷ rest, s'')

  follower : (lock : ℕ) (s : lib.State) → interprocess_lock_init 0 lock false s ≡ (0, lock, s)
  unfolding interprocess_lock_init
  follower lock s = refl

  followers_after :
      (lock n : ℕ) (s : lib.State)
      → init_all lock (replicate n false) s ≡ (replicate n (0, lock), s)
  followers_after lock zero s = refl
  followers_after lock (suc n) s = rw (follower lock s, followers_after lock n s) refl

  -- If the leader's call alone would return `code`: with any number of followers before and after the
  -- leader, the library sees the leader's calls only, the leader returns `code`, every follower returns
  -- 0, whether or not the leader has failed, and every process holds the lock.
  pub init_all-one_leader :
      (lock n m code : ℕ) (s s' : lib.State)
      → interprocess_lock_init 0 lock true s ≡ (code, lock, s')
      → init_all lock (replicate n false ++ true ∷ replicate m false) s
        ≡ (replicate n (0, lock) ++ (code, lock) ∷ replicate m (0, lock), s')
  init_all-one_leader lock zero m code s s' e = rw (e, followers_after lock m s') refl
  init_all-one_leader lock (suc n) m code s s' e =
      rw (follower lock s, init_all-one_leader lock n m code s s' e) refl
