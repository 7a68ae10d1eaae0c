-- ===== src/Queue/Delayed/Invariant.antt =====
-- What ties the queue with delayed stores to the queue of Queue.Threads, in which a store takes effect at
-- once: a producer there clears its link when the one here passes the barrier, and stores the link
-- to its element when that store takes effect here.
use open_pa.Base.{ℕ, ◌≡◌, ◌≢◌, some, ◌⊎◌}
use open_pa.Queue.Shape.{NotIn}
use open_pa.Queue.Threads
use open_pa.Queue.Threads.{Producer, idle, swapping, linking, held, Owns}
use open_pa.Queue.Delayed.{
  Writer, Buffer, System, outside, filling, clearing_link, at_barrier, at_swap, at_link, Has,
  IsEmpty,
}

-- No thread of `s` has the element.
abbrev pub Kept : Threads.System → ℕ → Type 0
Kept s a =
    (a ≢ 0) × NotIn a s.queued × NotIn a (held s.consumer) × ((j : ℕ) → Owns (s.producers j) a → ⊥)

-- The store of the link to the last element waits, or has taken effect.
abbrev pub Waits : Buffer → Producer → Type 0
Waits b q =
    (q ≡ idle)
    ⊎ ((p a : ℕ) × (q ≡ linking p a)
        × (((p ≡ 0) × (b.head ≡ some a)) ⊎ ((p ≢ 0) × (b.next p ≡ some a))))

-- What a producer relies on, of an element: that nobody else has it, and the functions on elements.
pub record View : Type 1 where
  pub kept : ℕ → Type 0
  pub given : ℕ → ℕ
  pub contents : ℕ → ℕ
  pub next : ℕ → ℕ

abbrev pub Written : View → Buffer → ℕ → Type 0
Written v b a = (v.contents a ≡ v.given a) ⊎ (b.content a ≡ some (v.given a))

abbrev pub Cleared : View → Buffer → ℕ → Type 0
Cleared v b a = (v.next a ≡ 0) ⊎ (b.next a ≡ some 0)

-- What holds of a producer where it stands; `q` is its counterpart.
abbrev pub Stage : View → Writer → Buffer → Producer → Type 0
Stage v outside b q = Waits b q
Stage v (filling a c) b q = Waits b q × v.kept a × (v.given a ≡ c)
Stage v (clearing_link a) b q = Waits b q × v.kept a × Written v b a
Stage v (at_barrier a) b q = Waits b q × v.kept a × Written v b a × Cleared v b a
Stage v (at_swap a) b q = (q ≡ swapping a) × IsEmpty b
Stage v (at_link p a) b q = (q ≡ linking p a) × IsEmpty b

-- A link that waits is the null link of the producer's element, or the link to its last element.
abbrev pub Expected : Writer → Producer → (p x : ℕ) → Type 0
Expected w q p x = (Has w p × (x ≡ 0)) ⊎ ((p ≢ 0) × (q ≡ linking p x))

-- The producer, and each store that waits in its buffer.
pub record Local (v : View) (w : Writer) (b : Buffer) (q : Producer) : Type 0 where
  pub stage : Stage v w b q
  pub head : (x : ℕ) → b.head ≡ some x → q ≡ linking 0 x
  pub links : (p x : ℕ) → b.next p ≡ some x → Expected w q p x
  pub content : (p x : ℕ) → b.content p ≡ some x → Has w p × (x ≡ v.given p)

-- Some producer has the element and has not passed the barrier.
abbrev pub Private : System → ℕ → Type 0
Private t p = (i : ℕ) × Has (t.writers i) p

-- `s` with other links and producers.
abbrev pub over : Threads.System → (ℕ → ℕ) → (ℕ → Producer) → Threads.System
over s n ps = record s { next = n; producers = ps }

abbrev pub view : System → Threads.System → View
view t s = record { kept = Kept s; given = t.given; contents = t.contents; next = t.shared.next }

pub record Sim (t : System) (s : Threads.System) : Type 0 where
  pub same : t.shared ≡ over s t.shared.next t.shared.producers
  pub next : (p : ℕ) → (t.shared.next p ≡ s.next p) ⊎ Private t p
  pub contents : (p : ℕ) → (t.contents p ≡ t.given p) ⊎ Private t p
  pub unique : (i j a : ℕ) → Has (t.writers i) a → Has (t.writers j) a → i ≡ j
  pub local : (i : ℕ) → Local (view t s) (t.writers i) (t.buffers i) (s.producers i)
