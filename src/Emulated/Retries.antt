-- ===== src/Emulated/Retries.antt =====
-- Any number of threads in the loops of src/primitives/opa_emulated.h, on load-linked and store-conditional
-- and on compare-and-swap, all on one variable, one access a step.
pub mod Invariant
pub mod Moves
pub mod Atomic
use open_pa.Base.{ℕ, ◌≡◌, ◌==◌, if◌then◌else◌, Bool, true, false, suc, List, [], ◌∷◌}
use open_pa.Base.Word.{add32}
use open_pa.Primitives.{Op}

-- The loops: OPA_fetch_and_add_int_by_llsc and by_cas, and the two compare-and-swaps by_llsc and the two
-- swaps by_llsc and by_cas, which differ in the type of the variable only.
pub data Loop : Type 0 where
  adding : (val : ℕ) → Loop
  comparing : (oldv newv : ℕ) → Loop
  swapping : (val : ℕ) → Loop

-- Whether the condition of the loop gets to the store-conditional, and what that then stores.
unfoldable pub stores : Loop → ℕ → Bool
stores (adding val) prev = true
stores (comparing oldv newv) prev = prev == oldv
stores (swapping val) prev = true

unfoldable pub stored : Loop → ℕ → ℕ
stored (adding val) prev = add32 prev val
stored (comparing oldv newv) prev = newv
stored (swapping val) prev = val

-- The loops that there are on compare-and-swap.
abbrev pub IsByCas : Loop → Type 0
IsByCas (adding val) = Unit
IsByCas (comparing oldv newv) = ⊥
IsByCas (swapping val) = Unit

-- A thread is outside; or before its load-linked, or before its store-conditional, where it has found
-- `prev`; or before the first load of a loop on compare-and-swap, or before its compare-and-swap, where it
-- has found `prev`. `seen` is for the statements: the number of changes when it did.
pub data Worker : Type 0 where
  idle : Worker
  linking : Loop → Worker
  storing : (l : Loop) (prev seen : ℕ) → Worker
  loading : Loop → Worker
  trying : (l : Loop) (prev seen : ℕ) → Worker

-- A call that is over, with its result.
pub record Entry : Type 0 where
  pub loop : Loop
  pub result : ℕ

-- The variable, and the reservations and the threads. For the statements: the calls in the order in which
-- they ended, latest first, and how often the variable has been stored to or a reservation lost.
pub record System : Type 0 where
  pub cell : ℕ
  pub reserved : ℕ → Bool
  pub workers : ℕ → Worker
  pub history : List Entry
  pub changes : ℕ

abbrev pub set_worker : (ℕ → Worker) → ℕ → Worker → ℕ → Worker
set_worker ws i w j = if i == j then w else ws j

abbrev pub set_flag : (ℕ → Bool) → ℕ → Bool → ℕ → Bool
set_flag fs i b j = if i == j then b else fs j

unfoldable pub load_linked : ℕ → Loop → System → System
load_linked i l s =
    if stores l s.cell
    then record s {
      reserved = set_flag s.reserved i true;
      workers = set_worker s.workers i (storing l s.cell s.changes);
    }
    else record s {
      reserved = set_flag s.reserved i true;
      workers = set_worker s.workers i idle;
      history = record { loop = l; result = s.cell } ∷ s.history;
    }

-- A store ends the reservations of all threads.
unfoldable pub store_conditional : ℕ → Loop → ℕ → System → System
store_conditional i l prev s =
    if s.reserved i
    then record s {
      cell = stored l prev;
      reserved = λ j. false;
      workers = set_worker s.workers i idle;
      history = record { loop = l; result = prev } ∷ s.history;
      changes = suc s.changes;
    }
    else record s { workers = set_worker s.workers i (linking l) }

unfoldable pub load : ℕ → Loop → System → System
load i l s = record s { workers = set_worker s.workers i (trying l s.cell s.changes) }

-- `cmp = prev; prev = OPA_cas(ptr, cmp, …)`, and the test of the loop.
unfoldable pub compare_and_swap : ℕ → Loop → ℕ → System → System
compare_and_swap i l prev s =
    if s.cell == prev
    then record s {
      cell = stored l prev;
      reserved = λ j. false;
      workers = set_worker s.workers i idle;
      history = record { loop = l; result = s.cell } ∷ s.history;
      changes = suc s.changes;
    }
    else record s { workers = set_worker s.workers i (trying l s.cell s.changes) }

-- A thread begins a loop, or makes its next access; or a reservation is lost for another reason.
pub data Step (s : System) : System → Type 0 where
  begin :
      (i : ℕ) (l : Loop)
      → s.workers i ≡ idle
      → Step s (record s { workers = set_worker s.workers i (linking l) })
  link : (i : ℕ) (l : Loop) → s.workers i ≡ linking l → Step s (load_linked i l s)
  store :
      (i : ℕ) (l : Loop) (prev seen : ℕ)
      → s.workers i ≡ storing l prev seen
      → Step s (store_conditional i l prev s)
  begin_by_cas :
      (i : ℕ) (l : Loop)
      → s.workers i ≡ idle
      → IsByCas l
      → Step s (record s { workers = set_worker s.workers i (loading l) })
  first_load : (i : ℕ) (l : Loop) → s.workers i ≡ loading l → Step s (load i l s)
  compare :
      (i : ℕ) (l : Loop) (prev seen : ℕ)
      → s.workers i ≡ trying l prev seen
      → Step s (compare_and_swap i l prev s)
  lose :
      (i : ℕ)
      → Step s (record s { reserved = set_flag s.reserved i false; changes = suc s.changes })

abbrev pub initial : ℕ → System
initial v = record {
  cell = v;
  reserved = λ i. false;
  workers = λ i. idle;
  history = [];
  changes = 0;
}

pub data Reachable (v : ℕ) : System → Type 0 where
  start : Reachable v (initial v)
  then : {s t : System} → Reachable v s → Step s t → Reachable v t
