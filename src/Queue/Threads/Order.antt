-- ===== src/Queue/Threads/Order.antt =====
-- The queue is first in, first out, whatever the interleaving of its threads.
use open_pa.Base.{
  arith, ap, ℕ, ◌≡◌, ◌≢◌, ◌==◌, Bool-cases, List, [], ◌∷◌, ◌++◌, ◌⊎◌, inl, inr, refl, sym, ◌∙◌,
  subst,
}
use open_pa.Queue.Shape.{NotIn, first}
use open_pa.Queue.Threads.Takes.{Joined-first}
use open_pa.Queue.Threads.{
  waiting, behind_first, Producer, System, idle, clearing, swapping, linking, set_producer, held,
  Owns, produce_at, produce, testing, Step, Reachable, start,
}
use open_pa.Queue.Threads.Invariant.{Inv, Owner, Front, Place, Valid, Chain-producers, kept_at}
use open_pa.Queue.Threads.Owners.{each-Owner, Front-kept}
use open_pa.Queue.Threads.Producers.{clear-Inv, link-Inv, head-Inv}
use open_pa.Queue.Threads.Swap.{swap-Inv}
use open_pa.Queue.Threads.Consumers.{consume-Inv, begin_testing, begin_loading, is_same}

produced : (s : System) (i : ℕ) (p : Producer) → s.producers i ≡ p → Inv s → Inv (produce_at p i s)
unfolding produce_at
produced s i idle e h = h
produced s i (clearing a) e h = clear-Inv s i a e h
produced s i (swapping a) e h = swap-Inv s a i e h
produced s i (linking p a) e h = elim (Bool-cases (p == 0)) [
  | inl b ↦ rw b (head-Inv s i a p e b h)
  | inr b ↦ rw b (link-Inv s i a p e b h)
]

-- A producer begins with an element that nobody has.
Unique-begun :
    (ps : ℕ → Producer) (i a : ℕ)
    → ((j : ℕ) → Owns (ps j) a → ⊥)
    → ((i j b : ℕ) → Owns (ps i) b → Owns (ps j) b → i ≡ j)
    → (j k b : ℕ) → Owns (set_producer ps i (clearing a) j) b
    → Owns (set_producer ps i (clearing a) k) b
    → j ≡ k
Unique-begun ps i a free u j k b = elim (Bool-cases (i == j)) [
  | inl x ↦ elim (Bool-cases (i == k)) [
    | inl y ↦ λ o p. sym (is_same i j x) ∙ is_same i k y
    | inr y ↦ rw (x, y) (λ o p. absurd (free k (subst (Owns (ps k)) (sym o) p)))
  ]
  | inr x ↦ elim (Bool-cases (i == k)) [
    | inl y ↦ rw (x, y) (λ o p. absurd (free j (subst (Owns (ps j)) (sym p) o)))
    | inr y ↦ rw (x, y) (u j k b)
  ]
]

-- The owners do not depend on the other producers.
Owner-begun :
    (s : System) (ps : ℕ → Producer) (p : Producer)
    → Owner s p
    → Owner (record s { producers = ps }) p
Owner-begun s ps idle o = o
Owner-begun s ps (clearing b) o = o
Owner-begun s ps (swapping b) o = o
Owner-begun s ps (linking p b) o = o

begin-Inv :
    (s : System) (i a : ℕ)
    → s.producers i ≡ idle
    → a ≢ 0
    → NotIn a s.queued
    → NotIn a (held s.consumer)
    → ((j : ℕ) → Owns (s.producers j) a → ⊥)
    → Inv s
    → Inv (record s { producers = set_producer s.producers i (clearing a) })
begin-Inv s i a e z m n free h =
    let ps = set_producer s.producers i (clearing a) in
    let keep : (j x y : ℕ) → s.producers j ≡ linking x y → ps j ≡ linking x y =
      λ j x y f. kept_at s.producers i j (clearing a) (linking x y) (λ g. cc) f in
    record {
      history = h.history;
      valid = h.valid;
      tail = h.tail;
      chain =
          Chain-producers s.next s.producers ps s.queued h.valid (λ j x y _ g. keep j x y g)
            h.chain;
      owners =
          each-Owner s.producers i (clearing a) (record s { producers = ps }) (z, m, n)
            λ j _. Owner-begun s ps (s.producers j) (h.owners j);
      unique = Unique-begun s.producers i a free h.unique;
      front = Front-kept s s.next ps s.consumer (λ j y. keep j 0 y) (λ _ _ _ t. t) h.front;
    }

produce-Inv : (s : System) (i : ℕ) → Inv s → Inv (produce i s)
unfolding produce
produce-Inv s i h = produced s i (s.producers i) refl h

Step-Inv : (s s' : System) → Step s s' → Inv s → Inv s'
Step-Inv s s' (Step.begin_enqueue i a e z m n free) h = begin-Inv s i a e z m n free h
Step-Inv s s' (Step.begin_is_empty e) h = elim (Bool-cases (s.shadow_head == 0)) [
  | inl b ↦ rw b (begin_testing s h e (is_same s.shadow_head 0 b))
  | inr b ↦ rw b h
]
Step-Inv s s' (Step.call_peek_head e) h = h
Step-Inv s s' (Step.begin_dequeue e z) h = begin_loading s h e z
Step-Inv s s' (Step.producer i) h = produce-Inv s i h
Step-Inv s s' Step.consumer h = consume-Inv s h

-- The invariant holds in every state that the threads reach.
pub Reachable-Inv : (next : ℕ → ℕ) (s : System) → Reachable next s → Inv s
Reachable-Inv next s start = record {
  history = refl;
  valid = tt;
  tail = refl;
  chain = tt;
  owners = λ i. tt;
  unique = λ i j a o. absurd o;
  front = (refl, refl);
}
Reachable-Inv next s (Reachable.then {s = u} r t) = Step-Inv u s t (Reachable-Inv next u r)

-- In every state that any number of producers and one consumer reach by `Step` from an initialised
-- queue, whatever links the memory had: the elements in the order in which the producers swapped the
-- tail are those that `dequeue` has returned, in their order, then the one that it is about to return,
-- if any, and then those in the queue.
pub first_in-first_out :
    (next : ℕ → ℕ) (s : System)
    → Reachable next s
    → s.entered ≡ s.returned ++ (held s.consumer ++ s.queued)
first_in-first_out next s r = (Reachable-Inv next s r).history

nothing_there :
    (s : System) (q : List ℕ)
    → Valid q
    → Place s q
    → s.shadow_head ≡ 0
    → s.head ≡ 0
    → (q ≡ []) ⊎ ((i : ℕ) × (s.producers i ≡ linking 0 (first q)))
nothing_there s [] v p x y = inl refl
nothing_there s (r ∷ rs) v (inl (a, b)) x y = absurd (v.0 (sym a ∙ x))
nothing_there s (r ∷ rs) v (inr (inl (a, b))) x y = absurd (v.0 (sym b ∙ y))
nothing_there s (r ∷ rs) v (inr (inr (a, b, i, e))) x y = inr (i, e)

-- In every state that the threads reach by `Step` from an initialised queue: when `is_empty`,
-- after the shadow head, finds the head null too, the queue is empty, or the producer of its first
-- element has swapped the tail and not stored the head yet.
pub is_empty-nothing_linked :
    (next : ℕ → ℕ) (s : System)
    → Reachable next s
    → s.consumer ≡ testing
    → s.head ≡ 0
    → (s.queued ≡ []) ⊎ ((i : ℕ) × (s.producers i ≡ linking 0 (first s.queued)))
is_empty-nothing_linked next s r e z =
    let h = Reachable-Inv next s r in
    let (p, x) : Place s s.queued × (s.shadow_head ≡ 0) = subst (Front s) e h.front in
    nothing_there s s.queued h.valid p x z

link_stored : (s : System) (i c a : ℕ) → c ≢ 0 → a ≢ 0 → (produce_at (linking c a) i s).next c ≢ 0
unfolding produce_at
link_stored s i c a z w = ground arith

-- In every state that the threads reach by `Step` from an initialised queue: while `dequeue` is in
-- the busy wait for the link of its element and the link is null, some producer has swapped the
-- tail behind that element, and after the next access of that producer the link is not null.
pub dequeue-waits_for_producer :
    (next : ℕ → ℕ) (s : System) (c : ℕ)
    → Reachable next s
    → s.consumer ≡ waiting c
    → s.next c ≡ 0
    → (i a : ℕ) × (s.producers i ≡ linking c a) × ((produce i s).next c ≢ 0)
unfolding produce
dequeue-waits_for_producer next s c r e n =
    let h = Reachable-Inv next s r in
    let (_, _, f, z, w) = subst (Front s) e h.front in
    elim (Joined-first s.next s.producers s.queued (λ g. z (sym f ∙ g)) h.chain) [
      | inl g ↦ absurd (w (sym g ∙ ap s.next f ∙ n))
      | inr (i, g) ↦
          let k : s.producers i ≡ linking c (first (behind_first s.queued)) =
            g ∙ ap (λ x. linking x (first (behind_first s.queued))) f in
          (
            i,
            first (behind_first s.queued),
            k,
            subst (λ p. (produce_at p i s).next c ≢ 0) (sym k)
                (link_stored s i c (first (behind_first s.queued)) z w),
          )
    ]
