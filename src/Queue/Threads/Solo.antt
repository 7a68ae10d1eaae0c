-- ===== src/Queue/Threads/Solo.antt =====
-- The two models of the queue of src/opa_queue.h agree on a call that no other thread disturbs: its
-- function on absolute addresses, and its accesses one by one on offsets.
use open_pa.Base.{
  none, ◌⊎◌, Option, subst, ℕ, ◌≡◌, ◌≢◌, ◌<◌, ◌==◌, true, false, Bool-cases, inl, inr, refl, sym,
  ap, ◌∙◌, some, [], ◌∷◌, ◌++◌, ==-eq, ==-ne, ==-self,
}
use open_pa.Shm.{address_mod, rel_to_abs, abs_to_rel}
use open_pa.Shm.Address.{abs_to_rel-rel_to_abs}
use open_pa.Queue.{State, ok, update, enqueue}
use open_pa.Queue.Shape.{link, link-update}
use open_pa.Queue.Runs.{enqueue-first, enqueue-behind}
use open_pa.Queue.Threads.{
  Producer, System, idle, clearing, swapping, linking, set_link, set_producer, produce_at, produce,
}

-- A link, where there is an element, is the same in both models.
abbrev pub Same : Option ℕ → ℕ → Type 0
Same none n = Unit
Same (some v) n = v ≡ n

-- There is an element at the offset `r`.
abbrev pub IsElement : State → ℕ → Type 0
IsElement s r = (v : ℕ) × (link s r ≡ some v)

-- The same queue in both models: equal offsets, and the same link of every element.
pub record Agrees (s : State) (t : System) : Type 0 where
  pub based : s.base < address_mod
  pub head : s.head ≡ t.head
  pub tail : s.tail ≡ t.tail
  pub shadow_head : s.shadow_head ≡ t.shadow_head
  pub links : (r : ℕ) → r < address_mod → Same (link s r) (t.next r)

pub link-Same : (s : State) (n r : ℕ) → IsElement s r → Same (link s r) n → link s r ≡ some n
link-Same s n r (v, e) h = e ∙ ap some (subst (λ o. Same o n) e h)

pub link_set :
    (s : State) (n : ℕ → ℕ) (a v : ℕ)
    → s.base < address_mod
    → a < address_mod
    → ((r : ℕ) → r < address_mod → Same (link s r) (n r))
    → (r : ℕ) → r < address_mod
    → Same (update s.next (rel_to_abs s.base a) v (rel_to_abs s.base r)) (set_link n a v r)
link_set s n a v b h l r k =
    subst (λ o. Same o (set_link n a v r)) (sym (link-update s a v r b h k))
      (elim (Bool-cases (a == r)) [ inl e ↦ rw e refl | inr e ↦ rw e (l r k) ])

-- Producer `i` alone, from the call to the return.
abbrev pub solo_enqueue : (i a : ℕ) → System → System
solo_enqueue i a t =
    produce i
      (produce i (produce i (record t { producers = set_producer t.producers i (clearing a) })))

set_self : (ps : ℕ → Producer) (i : ℕ) (p : Producer) → set_producer ps i p i ≡ p
set_self ps i p = rw (==-self i) refl

pub producing :
    (t : System) (i : ℕ) (p : Producer) → t.producers i ≡ p → produce i t ≡ produce_at p i t
unfolding produce
producing t i p e = ap (λ p. produce_at p i t) e

module _ (t : System) (i a : ℕ) where
  abbrev pub cleared : System
  cleared = record t {
    next = set_link t.next a 0;
    producers = set_producer (set_producer t.producers i (clearing a)) i (swapping a);
  }

  abbrev swapped : System
  swapped = record cleared {
    tail = a;
    producers = set_producer cleared.producers i (linking t.tail a);
    entered = t.entered ++ a ∷ [];
    queued = t.queued ++ a ∷ [];
  }

  solo_enqueue-swapped : solo_enqueue i a t ≡ produce_at (linking t.tail a) i swapped
  unfolding produce_at
  solo_enqueue-swapped =
      ap (λ u. produce i (produce i u))
        (producing _ i (clearing a) (set_self t.producers i (clearing a)))
      ∙ ap (produce i) (
          producing cleared i (swapping a)
            (set_self (set_producer t.producers i (clearing a)) i (swapping a)))
      ∙ producing swapped i (linking t.tail a) (set_self cleared.producers i (linking t.tail a))

-- The function ends, the producer is back, and the models agree.
abbrev pub EnqueuesTo : (s : State) (i a : ℕ) → System → Type 0
EnqueuesTo s i a u =
    (s' : State) × (enqueue (rel_to_abs s.base a) s ≡ ok tt s')
    × Agrees s' u
    × (u.producers i ≡ idle)

module _ (s : State) (t : System) (i a : ℕ) (g : Agrees s t) (h : a < address_mod)
    (elt : IsElement s a) where
  offset_back : abs_to_rel s.base (rel_to_abs s.base a) ≡ a
  offset_back = abs_to_rel-rel_to_abs s.base g.based a h

  abbrev as_first : State
  as_first = record s { next = update s.next (rel_to_abs s.base a) 0; tail = a; head = a }

  run_first : t.tail ≡ 0 → enqueue (rel_to_abs s.base a) s ≡ ok tt as_first
  run_first e =
      enqueue-first s (rel_to_abs s.base a) (t.next a) (link-Same s (t.next a) a elt (g.links a h))
        (g.tail ∙ e)
      ∙ ap
          (λ r.
            ok tt (record s { next = update s.next (rel_to_abs s.base a) 0; tail = r; head = r }))
          offset_back

  first-EnqueuesTo :
      (t.tail == 0) ≡ true → EnqueuesTo s i a (produce_at (linking t.tail a) i (swapped t i a))
  unfolding produce_at
  first-EnqueuesTo b = rw b (
    as_first,
    run_first (==-eq _ _ b),
    record {
      based = g.based;
      head = refl;
      tail = refl;
      shadow_head = g.shadow_head;
      links = link_set s t.next a 0 g.based h g.links;
    },
    set_self (swapped t i a).producers i idle,
  )

  abbrev behind : (p r : ℕ) → State
  behind p r = record s {
    next = update (update s.next (rel_to_abs s.base a) 0) (rel_to_abs s.base p) r;
    tail = r;
  }

  run_last :
      t.tail ≢ 0
      → t.tail < address_mod
      → IsElement s t.tail
      → enqueue (rel_to_abs s.base a) s ≡ ok tt (behind t.tail a)
  run_last n k q =
      enqueue-behind s (rel_to_abs s.base a) (t.next a) (t.next t.tail)
        (link-Same s (t.next a) a elt (g.links a h)) (λ e. n (sym g.tail ∙ e))
        (ap (link s) g.tail ∙ link-Same s (t.next t.tail) t.tail q (g.links t.tail k))
      ∙ ap (λ p. ok tt (behind p (abs_to_rel s.base (rel_to_abs s.base a)))) g.tail
      ∙ ap (λ r. ok tt (behind t.tail r)) offset_back

  last-EnqueuesTo :
      (t.tail == 0) ≡ false
      → t.tail < address_mod
      → IsElement s t.tail
      → EnqueuesTo s i a (produce_at (linking t.tail a) i (swapped t i a))
  unfolding produce_at
  last-EnqueuesTo b k q = rw b (
    behind t.tail a,
    run_last (==-ne _ _ b) k q,
    record {
      based = g.based;
      head = g.head;
      tail = refl;
      shadow_head = g.shadow_head;
      links =
          link_set (record s { next = update s.next (rel_to_abs s.base a) 0 }) (set_link t.next a 0)
            t.tail a g.based k (link_set s t.next a 0 g.based h g.links);
    },
    set_self (swapped t i a).producers i idle,
  )

  -- In a queue that is the same in both models, whatever its links, with elements at the offset `a` and
  -- at the tail, if it is not null, both in range: `enqueue` of the element at `a` ends in the function;
  -- the accesses of a producer alone, from its call, bring it back from the call; and the queue is the
  -- same afterwards.
  pub enqueue-EnqueuesTo :
      t.tail < address_mod
      → (t.tail ≡ 0) ⊎ IsElement s t.tail
      → EnqueuesTo s i a (solo_enqueue i a t)
  enqueue-EnqueuesTo k q = rw (solo_enqueue-swapped t i a) (elim (Bool-cases (t.tail == 0)) [
    | inl b ↦ first-EnqueuesTo b
    | inr b ↦ elim q [ inl z ↦ absurd (==-ne _ _ b z) | inr y ↦ last-EnqueuesTo b k y ]
  ])
