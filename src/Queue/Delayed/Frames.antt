-- ===== src/Queue/Delayed/Frames.antt =====
-- What a producer keeps while another thread moves.
use open_pa.Base.{
  ==-self, refl, Bool-cases, ==-eq, false, ◌==◌, set_at-other, set_at, sym, ap, subst, ◌∙◌, Option,
  ℕ, ◌≡◌, ◌≢◌, none, some, inl, inr,
}
use open_pa.Queue.Shape.{NotIn}
use open_pa.Queue.Threads.Invariant.{Inv, Owner, NotIn-Follows}
use open_pa.Queue.Threads
use open_pa.Queue.Threads.{set_producer, Owns, linking, idle, Producer}
use open_pa.Queue.Delayed.Invariant.{over, Kept, Stage, Local, Waits, Cleared, Written, View}
use open_pa.Queue.Delayed.{
  Writer, Buffer, outside, filling, clearing_link, at_barrier, at_swap, at_link, Has, IsEmpty,
}

-- What a producer with the element relied on, it can rely on still.
pub record Extends (v u : View) (a : ℕ) : Type 0 where
  pub kept : v.kept a → u.kept a
  pub given : u.given a ≡ v.given a
  pub contents : v.contents a ≡ v.given a → u.contents a ≡ u.given a
  pub next : v.next a ≡ 0 → u.next a ≡ 0

-- The buffer changes elsewhere.
pub Written-moved :
    (v u : View) (b c : Buffer) (a : ℕ)
    → Extends v u a
    → b.content a ≡ c.content a
    → Written v b a
    → Written u c a
Written-moved v u b c a k m (inl e) = inl (k.contents e)
Written-moved v u b c a k m (inr e) = inr (sym m ∙ e ∙ ap some (sym k.given))

pub Cleared-moved :
    (v u : View) (b c : Buffer) (a : ℕ)
    → Extends v u a
    → b.next a ≡ c.next a
    → Cleared v b a
    → Cleared u c a
Cleared-moved v u b c a k m (inl e) = inl (k.next e)
Cleared-moved v u b c a k m (inr e) = inr (sym m ∙ e)

Stage-Extends :
    (v u : View) (w : Writer) (b : Buffer) (q : Producer)
    → ((a : ℕ) → Has w a → Extends v u a)
    → Stage v w b q
    → Stage u w b q
Stage-Extends v u outside b q k h = h
Stage-Extends v u (filling a c) b q k (m, n, e) = (m, (k a refl).kept n, (k a refl).given ∙ e)
Stage-Extends v u (clearing_link a) b q k (m, n, e) =
    (m, (k a refl).kept n, Written-moved v u b b a (k a refl) refl e)
Stage-Extends v u (at_barrier a) b q k (m, n, e, f) = (
  m,
  (k a refl).kept n,
  Written-moved v u b b a (k a refl) refl e,
  Cleared-moved v u b b a (k a refl) refl f,
)
Stage-Extends v u (at_swap a) b q k h = h
Stage-Extends v u (at_link p a) b q k h = h

pub Local-Extends :
    (v u : View) (w : Writer) (b : Buffer) (q : Producer)
    → ((a : ℕ) → Has w a → Extends v u a)
    → Local v w b q
    → Local u w b q
Local-Extends v u w b q k h = record {
  stage = Stage-Extends v u w b q k h.stage;
  head = h.head;
  links = h.links;
  content = λ p x e. let (m, f) = h.content p x e in (m, f ∙ sym (k p m).given);
}

-- The element of a producer before the barrier is kept.
pub Has-kept :
    (v : View) (w : Writer) (b : Buffer) (q : Producer) (a : ℕ) → Stage v w b q → Has w a → v.kept a
Has-kept v outside b q a h m = absurd m
Has-kept v (filling x c) b q a (_, k, _) m = subst v.kept m k
Has-kept v (clearing_link x) b q a (_, k, _) m = subst v.kept m k
Has-kept v (at_barrier x) b q a (_, k, _, _) m = subst v.kept m k
Has-kept v (at_swap x) b q a h m = absurd m
Has-kept v (at_link p x) b q a h m = absurd m

-- A link that waits to be stored is not that of a kept element.
pub linked_elsewhere :
    (s : Threads.System) (i p x a : ℕ)
    → Inv s
    → s.producers i ≡ linking p x
    → p ≢ 0
    → NotIn a s.queued
    → a ≢ p
linked_elsewhere s i p x a h e z m = elim (subst (Owner s) e (h.owners i)) [
  | inl o ↦ absurd (z o.0)
  | inr o ↦ NotIn-Follows p x a s.queued m o.2
]

-- A link of an element that is kept changes in the buffer.
pub Waits-kept :
    (s : Threads.System) (b : Buffer) (i a : ℕ) (x : Option ℕ)
    → Inv s
    → NotIn a s.queued
    → Waits b (s.producers i)
    → Waits (record b { next = set_at b.next a x }) (s.producers i)
Waits-kept s b i a x h m (inl e) = inl e
Waits-kept s b i a x h m (inr (p, c, e, inl k)) = inr (p, c, e, inl k)
Waits-kept s b i a x h m (inr (p, c, e, inr (z, k))) =
    inr (p, c, e, inr (z, set_at-other b.next a x p (linked_elsewhere s i p c a h e z m) ∙ k))

-- With an empty buffer nothing waits.
pub Waits-idle : (b : Buffer) (q : Producer) → IsEmpty b → Waits b q → q ≡ idle
Waits-idle b q m (inl e) = e
Waits-idle b q (m, _, _) (inr (p, a, e, inl (z, k))) = cc
Waits-idle b q (_, m, _) (inr (p, a, e, inr (z, k))) = let n : b.next p ≡ none = m p in cc

-- What holds at one place and at each other holds at every place.
pub each_place : (P : ℕ → Type 0) (i : ℕ) → P i → ((j : ℕ) → (i == j) ≡ false → P j) → (j : ℕ) → P j
each_place P i p q j = elim (Bool-cases (i == j)) [
  | inl e ↦ subst P (==-eq i j e) p
  | inr e ↦ q j e
]

module _ (ws : ℕ → Writer) (i : ℕ) (w : Writer) where
  pub Private-set :
      (a : ℕ)
      → (Has (ws i) a → Has w a)
      → (j : ℕ) × Has (ws j) a
      → (j : ℕ) × Has (set_at ws i w j) a
  Private-set a k (j, m) = elim (Bool-cases (i == j)) [
    | inl e ↦ (j, rw e (k (subst (λ x. Has (ws x) a) (sym (==-eq i j e)) m)))
    | inr e ↦ (j, rw e m)
  ]

  pub Unique-set :
      ((b : ℕ) → Has w b → (j : ℕ) → (i == j) ≡ false → Has (ws j) b → ⊥)
      → ((j k b : ℕ) → Has (ws j) b → Has (ws k) b → j ≡ k)
      → (j k b : ℕ) → Has (set_at ws i w j) b
      → Has (set_at ws i w k) b
      → j ≡ k
  Unique-set n u j k b = elim (Bool-cases (i == j)) [
    | inl x ↦ elim (Bool-cases (i == k)) [
      | inl y ↦ λ o p. sym (==-eq i j x) ∙ ==-eq i k y
      | inr y ↦ rw (x, y) (λ o p. absurd (n b o k y p))
    ]
    | inr x ↦ elim (Bool-cases (i == k)) [
      | inl y ↦ rw (x, y) (λ o p. absurd (n b p j x o))
      | inr y ↦ rw (x, y) (u j k b)
    ]
  ]

-- Producer `i` goes on, with another element than `b`.
pub Kept-set :
    (s : Threads.System) (n : ℕ → ℕ) (i : ℕ) (q : Producer) (b : ℕ)
    → (Owns q b → ⊥)
    → Kept s b
    → Kept (over s n (set_producer s.producers i q)) b
Kept-set s n i q b k (z, m, o, f) = (z, m, o, each_place _ i (rw (==-self i) k) λ j d. rw d (f j))
