-- ===== src/Cell.antt =====
-- One atomic variable, `OPA_int_t` or `OPA_ptr_t`, as one thread sees it while other threads work on it.
--
-- A world holds the variable's value, the thread's load-link reservation, what the other threads will
-- do before each of this thread's next accesses, and the accesses that this thread has made. One
-- access of the source (a volatile load or store, an atomic instruction) is one action, and the other
-- threads run between the actions: memory is sequentially consistent.
pub mod Laws
pub mod Actions
pub mod Loop
use open_pa.Base.{ℕ, Bool, true, false, List, [], ◌∷◌, ◌==◌, if◌then◌else◌}

-- What the other threads do before the next access: nothing, something that loses the reservation
-- without a change (a spurious failure), or writes of which `v` is the last.
pub data Event : Type 0 where
  quiet : Event
  lose : Event
  put : (v : ℕ) → Event

-- The barriers that the headers issue, by instruction, intrinsic, library function or memory order.
pub data Fence : Type 0 where
  compiler : Fence
  eieio lwsync hwsync : Fence
  dmb dsb : Fence
  mfence locked_or : Fence
  mf : Fence
  mips_sync : Fence
  sync_synchronize sync_lock_test_and_set sync_lock_release : Fence
  membar_enter membar_exit membar_producer membar_consumer : Fence
  nt_read nt_write nt_read_write : Fence
  order_acquire order_release fence_acq_rel signal_acq_rel : Fence

-- An access of this thread: a value read, a value replaced by another, a fence.
pub data Access : Type 0 where
  read : (v : ℕ) → Access
  wrote : (old new : ℕ) → Access
  fence : (kind : Fence) → Access

pub record World : Type 0 where
  pub cell : ℕ
  pub linked : Bool
  pub ahead : List Event
  pub trace : List Access  -- the latest first

-- The effect of the other threads. A write by one of them ends the reservation.
abbrev happen : Event → World → World
happen quiet w = w
happen lose w = record w { linked = false }
happen (put v) w = record w { cell = v; linked = false }

abbrev take_turn : List Event → World → World
take_turn [] w = w
take_turn (e ∷ es) w = happen e (record w { ahead = es })

-- The other threads run up to the next access.
unfoldable pub settle : World → World
settle w = take_turn w.ahead w

-- The result of a run on fuel.
pub data Outcome {ℓ} (A : Type ℓ) : Type ℓ where
  done : A → World → Outcome A
  out_of_fuel : Outcome A

abbrev pub M {ℓ} : Type ℓ → Type ℓ
M A = World → Outcome A

abbrev pub pure {ℓ} : {A : Type ℓ} → A → M A
pure = done

abbrev pub and_then {ℓ κ} : {A : Type ℓ} {B : Type κ} → Outcome A → (A → M B) → Outcome B
and_then (done a w) k = k a w
and_then out_of_fuel k = out_of_fuel

infixl 5 ◌>>=◌ ◌>>◌
abbrev pub ◌>>=◌ {ℓ κ} : {A : Type ℓ} {B : Type κ} → M A → (A → M B) → M B
m >>= k = λ w. and_then (m w) k

abbrev pub ◌>>◌ {ℓ κ} : {A : Type ℓ} {B : Type κ} → M A → M B → M B
m >> k = m >>= λ _. k

abbrev pub log : Access → World → World
log a w = record w { trace = a ∷ w.trace }

-- This thread replaces the value of the variable. Its own reservation ends too.
abbrev pub replace : ℕ → World → World
replace v w = record w { cell = v; linked = false; trace = wrote w.cell v ∷ w.trace }

-- `v = ptr->v`
unfoldable pub get : M ℕ
get w = let w' = settle w in done w'.cell (log (read w'.cell) w')

-- `ptr->v = v`
unfoldable pub set : ℕ → M (Unit {0})
set v w = let w' = settle w in done tt (replace v w')

-- An instruction that replaces the value `v` by `f v` in one access and returns `v`.
unfoldable pub fetch_modify : (ℕ → ℕ) → M ℕ
fetch_modify f w = let w' = settle w in done w'.cell (replace (f w'.cell) w')

-- An instruction that compares and, if equal, swaps, in one access, and returns the value found.
unfoldable pub compare_exchange : ℕ → ℕ → M ℕ
compare_exchange old new w =
    let w' = settle w in
    done w'.cell (if w'.cell == old then replace new w' else log (read w'.cell) w')

-- Load-link: a load that makes a reservation.
unfoldable pub load_link : M ℕ
load_link w =
    let w' = settle w in done w'.cell (record w' { linked = true; trace = read w'.cell ∷ w'.trace })

-- Store-conditional: it stores, and answers true, if the reservation still stands.
unfoldable pub store_conditional : ℕ → M Bool
store_conditional v w =
    let w' = settle w in if w'.linked then done true (replace v w') else done false w'

-- A barrier is no access to the variable: only its place among the accesses is kept.
unfoldable pub barrier : Fence → M (Unit {0})
barrier k w = done tt (log (fence k) w)
