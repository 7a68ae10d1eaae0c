-- ===== src/Locked/Threads.antt =====
-- Any number of threads, of any processes, that call the operations of src/primitives/opa_by_lock.h on
-- shared variables, one access or call of the lock at a time.
use open_pa.Base.{ℕ, ◌≡◌, ◌==◌, if◌then◌else◌, Option, none, some, List, [], ◌∷◌}
use open_pa.Primitives.{Op}
use open_pa.Locked.Accesses.{Program, return, load, store, lock, unlock}
use open_pa.Locked.{code}

-- What POSIX says of a pthread_mutex_t: a call of pthread_mutex_lock returns when the mutex is free, and
-- the calling thread then holds it; the holder's call of pthread_mutex_unlock frees it. `lock i m n`
-- says that a call by thread `i` may return and take the mutex from `m` to `n`.
pub record Mutex : Type 1 where
  pub State : Type 0
  pub unlocked : State
  pub holder : State → Option ℕ
  pub lock : ℕ → State → State → Type 0
  pub unlock : ℕ → State → State → Type 0
  pub unlocked-holder : holder unlocked ≡ none
  pub lock_waits : (i : ℕ) (m n : State) → lock i m n → holder m ≡ none
  pub lock_takes : (i : ℕ) (m n : State) → lock i m n → holder n ≡ some i
  pub lock_returns : (i : ℕ) (m : State) → holder m ≡ none → (n : State) × lock i m n
  pub unlock_frees : (i : ℕ) (m n : State) → holder m ≡ some i → unlock i m n → holder n ≡ none
  pub unlock_returns : (i : ℕ) (m : State) → holder m ≡ some i → (n : State) × unlock i m n

pub record Call : Type 0 where
  pub ptr : ℕ
  pub op : Op

-- Outside every operation, or inside one with what is left of it to run.
pub data Thread : Type 0 where
  idle : Thread
  running : Call → Program ℕ → Thread

-- A call whose critical section is over, with its result.
pub record Entry : Type 0 where
  pub thread : ℕ
  pub call : Call
  pub result : ℕ

abbrev pub Memory : Type 0
Memory = ℕ → ℕ

abbrev pub write : Memory → ℕ → ℕ → Memory
write m p v q = if p == q then v else m q

abbrev pub set_thread : (ℕ → Thread) → ℕ → Thread → ℕ → Thread
set_thread ts i t j = if i == j then t else ts j

-- The result that a run is about to give, if it has no access left.
abbrev pub outcome : Program ℕ → ℕ
outcome (return r) = r
outcome _ = 0

module _ (mutex : Mutex) where
  -- `history` is for the statements: the calls in the order of their critical sections, latest first.
  pub record System : Type 0 where
    pub memory : Memory
    pub emulation_lock : mutex.State
    pub threads : ℕ → Thread
    pub history : List Entry

  pub data Step (s : System) : System → Type 0 where
    begin :
        (i : ℕ) (c : Call)
        → s.threads i ≡ idle
        → Step s (record s { threads = set_thread s.threads i (running c (code c.ptr c.op)) })
    enter :
        (i : ℕ) (c : Call) (k : Program ℕ) (n : mutex.State)
        → s.threads i ≡ running c (lock k)
        → mutex.lock i s.emulation_lock n
        → Step s (record s { emulation_lock = n; threads = set_thread s.threads i (running c k) })
    read :
        (i : ℕ) (c : Call) (p : ℕ) (k : ℕ → Program ℕ)
        → s.threads i ≡ running c (load p k)
        → Step s (record s { threads = set_thread s.threads i (running c (k (s.memory p))) })
    change :
        (i : ℕ) (c : Call) (p v : ℕ) (k : Program ℕ)
        → s.threads i ≡ running c (store p v k)
        → Step s (record s {
          memory = write s.memory p v;
          threads = set_thread s.threads i (running c k);
        })
    leave :
        (i : ℕ) (c : Call) (k : Program ℕ) (n : mutex.State)
        → s.threads i ≡ running c (unlock k)
        → mutex.unlock i s.emulation_lock n
        → Step s (record s {
          emulation_lock = n;
          threads = set_thread s.threads i (running c k);
          history = record { thread = i; call = c; result = outcome k } ∷ s.history;
        })
    finish :
        (i : ℕ) (c : Call) (r : ℕ)
        → s.threads i ≡ running c (return r)
        → Step s (record s { threads = set_thread s.threads i idle })

  -- The lock is initialised, and no operation has begun.
  abbrev pub initial : Memory → System
  initial m = record {
    memory = m;
    emulation_lock = mutex.unlocked;
    threads = λ i. idle;
    history = [];
  }

  pub data Reachable (m : Memory) : System → Type 0 where
    start : Reachable m (initial m)
    then : {s t : System} → Reachable m s → Step s t → Reachable m t
