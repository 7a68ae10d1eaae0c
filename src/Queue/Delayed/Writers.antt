-- ===== src/Queue/Delayed/Writers.antt =====
-- A producer begins `enqueue` of an element that is free.
use open_pa.Base.{
  ==-eq, ==-self, ◌==◌, Bool-cases, set_at-other, sym, ◌∙◌, ap, set_at_self, subst, set_at, ℕ, ◌≡◌,
  ◌≢◌, some, inl, inr,
}
use open_pa.Queue.Shape.{NotIn}
use open_pa.Queue.Threads
use open_pa.Queue.Threads.{linking, set_link, Owns, Producer}
use open_pa.Queue.Delayed.Invariant.{view, Kept, Local, Stage, Waits, View, Sim}
use open_pa.Queue.Delayed.Frames.{Local-Extends, each_place, Unique-set, Private-set, Extends}
use open_pa.Queue.Delayed.{
  held, IsFree, Holds, Writer, Buffer, System, outside, filling, clearing_link, at_barrier, at_swap,
  at_link, Has,
}

Waits-Owns :
    (b : Buffer) (q : Producer) (a : ℕ)
    → b.head ≢ some a
    → ((p : ℕ) → b.next p ≢ some a)
    → Waits b q
    → Owns q a
    → ⊥
Waits-Owns b q a m n (inl e) o = subst (λ q. Owns q a) e o
Waits-Owns b q a m n (inr (p, c, e, inl (_, k))) o = m (k ∙ ap some (subst (λ q. Owns q a) e o))
Waits-Owns b q a m n (inr (p, c, e, inr (_, k))) o = n p (k ∙ ap some (subst (λ q. Owns q a) e o))

-- The element of a producer's counterpart is its own, or that of a link that waits.
Stage-Owns :
    (v : View) (w : Writer) (b : Buffer) (q : Producer) (a : ℕ)
    → Stage v w b q
    → (Holds w a → ⊥)
    → b.head ≢ some a
    → ((p : ℕ) → b.next p ≢ some a)
    → Owns q a
    → ⊥
Stage-Owns v outside b q a h k m n o = Waits-Owns b q a m n h o
Stage-Owns v (filling x c) b q a (h, _, _) k m n o = Waits-Owns b q a m n h o
Stage-Owns v (clearing_link x) b q a (h, _, _) k m n o = Waits-Owns b q a m n h o
Stage-Owns v (at_barrier x) b q a (h, _, _, _) k m n o = Waits-Owns b q a m n h o
Stage-Owns v (at_swap x) b q a (e, _) k m n o = k (subst (λ q. Owns q a) e o)
Stage-Owns v (at_link p x) b q a (e, _) k m n o = k (subst (λ q. Owns q a) e o)

Has-Holds : (w : Writer) (a : ℕ) → Has w a → Holds w a
Has-Holds outside a h = h
Has-Holds (filling x c) a h = h
Has-Holds (clearing_link x) a h = h
Has-Holds (at_barrier x) a h = h
Has-Holds (at_swap x) a h = absurd h
Has-Holds (at_link p x) a h = absurd h

module _ (t : System) (s : Threads.System) (i : ℕ) (h : Sim t s) where
  -- A free element is kept.
  IsFree-Kept : (a : ℕ) → IsFree t a → Kept s a
  IsFree-Kept a f = (
    f.not_null,
    subst (NotIn a) (ap (λ u. u.queued) h.same) f.not_queued,
    subst (λ c. NotIn a (held c)) (ap (λ u. u.consumer) h.same) f.not_held,
    λ j.
        Stage-Owns (view t s) (t.writers j) (t.buffers j) (s.producers j) a (h.local j).stage
          (f.no_holder j) (f.no_head j) (f.no_link j),
  )

  -- Another element than `a` has its contents yet.
  given_elsewhere :
      (a c b : ℕ)
      → IsFree t a
      → (j : ℕ) → Has (t.writers j) b
      → Extends (view t s) (view (record t { given = set_link t.given a c }) s) b
  given_elsewhere a c b f j m =
      let n : a ≢ b =
        λ e. f.no_holder j (subst (Holds (t.writers j)) (sym e) (Has-Holds (t.writers j) b m)) in
      let k : set_link t.given a c b ≡ t.given b = set_at-other t.given a c b n in
      record { kept = λ x. x; given = k; contents = λ e. e ∙ sym k; next = λ e. e }

  begin-Local :
      (a c : ℕ)
      → t.writers i ≡ outside
      → IsFree t a
      → Local (view t s) (t.writers i) (t.buffers i) (s.producers i)
      → Local
          (view (record t { given = set_link t.given a c }) s)
          (filling a c)
          (t.buffers i)
          (s.producers i)
  begin-Local a c e f l =
      let g = subst (λ w. Local (view t s) w (t.buffers i) (s.producers i)) e l in
      record {
        stage = (g.stage, IsFree-Kept a f, set_at_self t.given a c);
        head = g.head;
        links = λ p x k. elim (g.links p x k) [ inl m ↦ absurd m.0 | inr m ↦ inr m ];
        content = λ p x k. absurd (g.content p x k).0;
      }

  pub begin-Sim :
      (a c : ℕ)
      → t.writers i ≡ outside
      → IsFree t a
      → Sim
          (record t { writers = set_at t.writers i (filling a c); given = set_link t.given a c })
          s
  begin-Sim a c e f =
      let none_had = λ (p : ℕ) (m : Has (t.writers i) p). absurd (subst (λ w. Has w p) e m) in
      record {
        same = h.same;
        next = λ p. elim (h.next p) [
          | inl k ↦ inl k
          | inr k ↦ inr (Private-set t.writers i (filling a c) p (none_had p) k)
        ];
        contents = λ p. elim (Bool-cases (a == p)) [
          | inl k ↦ inr (i, rw (==-self i) (==-eq a p k))
          | inr k ↦ rw k (elim (h.contents p) [
            | inl k ↦ inl k
            | inr k ↦ inr (Private-set t.writers i (filling a c) p (none_had p) k)
          ])
        ];
        unique =
            Unique-set t.writers i (filling a c)
              (λ b m j _ n.
                f.no_holder j (subst (Holds (t.writers j)) (sym m) (Has-Holds (t.writers j) b n)))
              h.unique;
        local = each_place _ i (rw (==-self i) (begin-Local a c e f (h.local i))) λ j d. rw d (
            Local-Extends (view t s) _ (t.writers j) (t.buffers j) (s.producers j)
              (λ b. given_elsewhere a c b f j) (h.local j));
      }
