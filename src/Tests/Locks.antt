-- ===== src/Tests/Locks.antt =====
-- The operations under a lock, with a mutex that meets its laws, and the initialisation of the lock.
use open_pa.Base.{
  ◌+◌, ℕ, ◌≡◌, ◌==◌, if◌then◌else◌, true, false, Option, none, some, [], ◌∷◌, ◌++◌, replicate, refl,
}
use open_pa.Primitives.{Op}
use open_pa.Base.Word.{add32}
use open_pa.Locked.Accesses.{Program, return, load, store, lock, unlock}
use open_pa.Locked.{code, fetch_and_add_int}
use open_pa.Locked.Threads.{
  Mutex, Call, idle, running, Memory, write, set_thread, System, Step, Reachable, start,
}
use open_pa.Locked.Body.{InSection}
use open_pa.Locked.Invariant.{IsLegal, latest}
use open_pa.Locked.Order.{linearizable, result_in-history, mutual_exclusion}
use open_pa.Locked.Progress.{GetsOn, no_deadlock}
use open_pa.Locked.Init.{
  Pthread, LeaderEnds, err_intern, interprocess_lock_init, interprocess_lock_init-leader, init_all,
  init_all-one_leader,
}

-- The thread that has the mutex.
abbrev pub mutex : Mutex
mutex = record {
  State = Option ℕ;
  unlocked = none;
  holder = λ m. m;
  lock = λ i m n. (m ≡ none) × (n ≡ some i);
  unlock = λ i m n. n ≡ none;
  unlocked-holder = refl;
  lock_waits = λ i m n l. l.0;
  lock_takes = λ i m n l. l.1;
  lock_returns = λ i m e. (some i, (e, refl));
  unlock_frees = λ i m n e l. l;
  unlock_returns = λ i m e. (none, refl);
}

abbrev zeros : Memory
zeros = λ p. 0

abbrev adds : Call
adds = record { ptr = 1; op = Op.fetch_and_add_int 5 }

abbrev increments : Call
increments = record { ptr = 1; op = Op.incr_int }

-- What is left after the next access or call of the lock, which may have read `v`.
abbrev pub after : Program ℕ → ℕ → Program ℕ
after (return r) v = return r
after (load p k) v = k v
after (store p w k) v = k
after (lock k) v = k
after (unlock k) v = k

abbrev entered : Program ℕ
entered = after (code 1 (Op.fetch_and_add_int 5)) 0

-- Thread 0 adds, thread 1 waits to increment.
abbrev begun : System mutex
begun = record {
  memory = zeros;
  emulation_lock = none;
  history = [];
  threads =
      set_thread (set_thread (λ i. idle) 0 (running adds (code 1 (Op.fetch_and_add_int 5)))) 1
        (running increments (code 1 Op.incr_int));
}

abbrev locked : System mutex
locked = record begun {
  emulation_lock = some 0;
  threads = set_thread begun.threads 0 (running adds entered);
}

begun_reached : Reachable mutex zeros begun
begun_reached =
    Reachable.then (Reachable.then start (Step.begin 0 adds refl)) (Step.begin 1 increments refl)

locked_reached : Reachable mutex zeros locked
unfolding code fetch_and_add_int
locked_reached = Reachable.then begun_reached (Step.enter 0 adds entered (some 0) refl (refl, refl))

-- Thread 0 has `k` left.
abbrev moved : System mutex → Program ℕ → System mutex
moved s k = record s { threads = set_thread s.threads 0 (running adds k) }

abbrev summed : Program ℕ
summed = after (after (after entered 0) 0) 0

-- Thread 0 has left the critical section and is about to return.
abbrev left_section : System mutex
left_section =
    record (moved
      (moved (moved (moved locked (after entered 0)) (after (after entered 0) 0)) summed)
      (return 0)) {
        memory = write zeros 1 5;
        emulation_lock = none;
        history = record { thread = 0; call = adds; result = 0 } ∷ [];
      }

left_section_reached : Reachable mutex zeros left_section
unfolding code fetch_and_add_int add32
left_section_reached =
    Reachable.then
      (Reachable.then
        (Reachable.then
          (Reachable.then locked_reached
            (Step.read 0 adds 1 (after (load 1 λ v. after entered v)) refl))
          (Step.read 0 adds 1 (after (after entered 0)) refl))
        (Step.change 0 adds 1 5 summed refl))
      (Step.leave 0 adds (return 0) none refl refl)

linearizable_example : IsLegal zeros left_section.history
linearizable_example = linearizable mutex zeros left_section left_section_reached

result_in-history_example : latest 0 left_section.history ≡ some (adds, 0)
result_in-history_example =
    result_in-history mutex zeros left_section 0 0 adds left_section_reached refl

entered-InSection : InSection entered
unfolding code fetch_and_add_int
entered-InSection = λ v w. tt

mutual_exclusion_example : (◌≡◌ {A = ℕ}) 0 0
mutual_exclusion_example =
    mutual_exclusion mutex zeros locked 0 0 adds adds entered entered locked_reached refl
      entered-InSection refl entered-InSection

-- Thread 1 waits for thread 0.
no_deadlock_example : (j : ℕ) × GetsOn mutex zeros locked j
no_deadlock_example =
    no_deadlock mutex zeros locked 1 increments (code 1 Op.incr_int) locked_reached refl

-- A library that counts its calls, and whose mutex_init fails on the place 0.
abbrev library : Pthread
library = record {
  State = ℕ;
  mutexattr_init = λ n. (0, n + 1);
  mutexattr_setpshared = λ n. (0, n + 1);
  mutex_init = λ l n. (if l == 0 then 22 else 0, n + 1);
}

interprocess_lock_init-leader_example :
    LeaderEnds library 0 0 (interprocess_lock_init library 7 0 true 0)
interprocess_lock_init-leader_example = interprocess_lock_init-leader library 7 0 0

init_all-one_leader_example :
    init_all library 64 (replicate 2 false ++ true ∷ replicate 1 false) 0
    ≡ (replicate 2 (0, 64) ++ (0, 64) ∷ replicate 1 (0, 64), 3)
unfolding interprocess_lock_init
init_all-one_leader_example = init_all-one_leader library 64 2 1 0 0 3 refl

leader_fails_on_0 : interprocess_lock_init library 7 0 true 0 ≡ (err_intern, 0, 3)
unfolding interprocess_lock_init
leader_fails_on_0 = refl
