-- ===== src/Queue/Delayed/Order.antt =====
-- What the consumer sees of producers whose stores are delayed.
use open_pa.Base.{
  set_at_self, ==-self, ap, ◌∙◌, ==-eq, sym, ◌==◌, subst, Bool-cases, ◌⊎◌, refl, ℕ, ◌≡◌, ◌≢◌, some,
  inl, inr,
}
use open_pa.Queue.Threads
use open_pa.Queue.Threads.{idle, Producer, linking, consume, ending, waiting}
use open_pa.Queue.Threads.Order.{Reachable-Inv, dequeue-waits_for_producer}
use open_pa.Queue.Threads.Invariant.{Inv, Owner, Follows-nonzero, Front}
use open_pa.Queue.Delayed.Invariant.{view, Stage, Waits, View, over}
use open_pa.Queue.Delayed.Simulation.{Reachable-Simulated}
use open_pa.Queue.Shape.{NotIn}
use open_pa.Queue.Delayed.Consumer.{first-next}
use open_pa.Queue.Threads.Owners.{same_prev}
use open_pa.Queue.Delayed.Frames.{Has-kept}
use open_pa.Queue.Delayed.{
  outside, filling, clearing_link, at_barrier, at_barrier, clearing_link, held, filling, Writer,
  System, Reachable, Buffer, IsEmpty, at_link, at_swap, Has, link, deliver_next,
}

-- No producer has the element before its barrier.
abbrev pub IsPublic : System → ℕ → Type 0
IsPublic t p = (j : ℕ) → Has (t.writers j) p → ⊥

-- `t` shows the consumer the queue `s`: both heads and the tail, the consumer, the three lists, and the
-- links of the elements that are public.
abbrev pub Shows : System → Threads.System → Type 0
Shows t s =
    (t.shared ≡ over s t.shared.next t.shared.producers)
    × ((p : ℕ) → IsPublic t p → t.shared.next p ≡ s.next p)

same_elt : {x y p a : ℕ} → linking x y ≡ linking p a → y ≡ a
same_elt e = cc

idle_linking : {p a : ℕ} → idle ≡ linking p a → ⊥
idle_linking e = cc

Waits-next :
    (b : Buffer) (q : Producer) (c a : ℕ) → q ≡ linking c a → c ≢ 0 → Waits b q → b.next c ≡ some a
Waits-next b q c a e z (inl f) = absurd (idle_linking (sym f ∙ e))
Waits-next b q c a e z (inr (p, x, f, inl (d, _))) = absurd (z (same_prev (sym e ∙ f) ∙ d))
Waits-next b q c a e z (inr (p, x, f, inr (_, k))) =
    let d : p ≡ c = same_prev (sym f ∙ e) in
    let g : x ≡ a = same_elt (sym f ∙ e) in subst (λ p. b.next p ≡ some a) d (k ∙ ap some g)

-- A link that is to be stored is before its store, or waits in the buffer.
waiting_link :
    (v : View) (w : Writer) (b : Buffer) (q : Producer) (c a : ℕ)
    → q ≡ linking c a
    → c ≢ 0
    → Stage v w b q
    → (w ≡ at_link c a) ⊎ (b.next c ≡ some a)
waiting_link v outside b q c a e z h = inr (Waits-next b q c a e z h)
waiting_link v (filling x y) b q c a e z (h, _, _) = inr (Waits-next b q c a e z h)
waiting_link v (clearing_link x) b q c a e z (h, _, _) = inr (Waits-next b q c a e z h)
waiting_link v (at_barrier x) b q c a e z (h, _, _, _) = inr (Waits-next b q c a e z h)
waiting_link v (at_swap x) b q c a e z (h, _) = cc
waiting_link v (at_link p x) b q c a e z (h, _) = inl (cc)

linked_nonzero : (s : Threads.System) → Inv s → (i p a : ℕ) → s.producers i ≡ linking p a → a ≢ 0
linked_nonzero s h i p a e = elim (subst (Owner s) e (h.owners i)) [
  | inl o ↦ o.2
  | inr o ↦ Follows-nonzero p a s.queued o.2
]

stored : (t : System) (i p a : ℕ) → p ≢ 0 → ((link i p a t).buffers i).next p ≡ some a
unfolding link
stored t i p a z = elim (Bool-cases (p == 0)) [
  | inl e ↦ absurd (z (==-eq p 0 e))
  | inr e ↦ rw (e, ==-self i, ==-self p) refl
]

module _ (Barrier : Buffer → Type 0) (drains : (b : Buffer) → Barrier b → IsEmpty b)
    (next contents : ℕ → ℕ) (t : System) (r : Reachable Barrier next contents t) where
  -- In every state that any number of producers, whose stores take effect late and in any order, and one
  -- consumer reach from an initialised queue, where the write barrier lets a producer go on only when none
  -- of its stores waits: the two heads, the tail, the consumer, the lists of the elements swapped into
  -- the tail, returned and queued, and the link of each element that no producer has before its barrier,
  -- are those of a state that `Queue.Threads` reaches, in which every store takes effect at once.
  pub delayed-Shows : (s : Threads.System) × Threads.Reachable next s × Shows t s
  delayed-Shows =
      let (s, k, h) = Reachable-Simulated Barrier drains next contents t r in
      (s, k, (h.same, λ p n. elim (h.next p) [ inl e ↦ e | inr (j, m) ↦ absurd (n j m) ]))

  -- In every state that producers with delayed stores and one consumer reach from an initialised queue,
  -- where the write barrier lets a producer go on only when none of its stores waits: when `dequeue` is
  -- about to return an element, no producer has that element before its barrier, and its contents in
  -- memory are those with which it was last enqueued.
  pub dequeue-given_contents :
      (e : ℕ) → t.shared.consumer ≡ ending e → IsPublic t e × (t.contents e ≡ t.given e)
  dequeue-given_contents e c =
      let (s, k, h) = Reachable-Simulated Barrier drains next contents t r in
      let public : IsPublic t e = λ j m.
        (subst (λ x. NotIn e (held x)) (sym (ap (λ u. u.consumer) h.same) ∙ c)
            (Has-kept (view t s) (t.writers j) (t.buffers j) (s.producers j) e (h.local j).stage
              m).2).0
          refl in
      (public, elim (h.contents e) [ inl k ↦ k | inr (j, m) ↦ absurd (public j m) ])

  -- In every state that producers with delayed stores and one consumer reach from an initialised queue,
  -- where the write barrier lets a producer go on only when none of its stores waits: while `dequeue` is
  -- in the busy wait for the link of its element and that link in memory is null, some producer is about
  -- to store it, and the store then waits in its buffer, or waits there already; and when the store takes
  -- effect the link is not null.
  pub dequeue-waits_for_store :
      (c : ℕ)
      → t.shared.consumer ≡ waiting c
      → t.shared.next c ≡ 0
      → (i a : ℕ) × (((t.writers i ≡ at_link c a) × (((link i c a t).buffers i).next c ≡ some a))
          ⊎ ((t.buffers i).next c ≡ some a))
        × ((deliver_next i c a t).shared.next c ≢ 0)
  unfolding link
  dequeue-waits_for_store c e n =
      let (s, k, h) = Reachable-Simulated Barrier drains next contents t r in
      let at : s.consumer ≡ waiting c = sym (ap (λ u. u.consumer) h.same) ∙ e in
      let (_, _, f, z, _) = subst (Front s) at (Reachable-Inv next s k).front in
      let (i, a, q, _) =
        dequeue-waits_for_producer next s c k at (sym (first-next t s h c f z) ∙ n) in
      (
        i,
        a,
        elim (waiting_link (view t s) (t.writers i) (t.buffers i) (s.producers i) c a q z
            (h.local i).stage) [ inl w ↦ inl (w, stored t i c a z) | inr w ↦ inr w ],
        λ d.
            linked_nonzero s (Reachable-Inv next s k) i c a q
              (sym (set_at_self t.shared.next c a) ∙ d),
      )
