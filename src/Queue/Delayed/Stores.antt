-- ===== src/Queue/Delayed/Stores.antt =====
-- The stores of a producer, which go to its buffer: the other threads see nothing yet.
use open_pa.Base.{
  refl, ==-ne, set_at-cases, ==-eq, ==-self, ◌==◌, Bool-cases, sym, ◌∙◌, ap, set_at_self, subst,
  set_at, ℕ, ◌≡◌, ◌≢◌, none, some, inl, inr,
}
use open_pa.Queue.Threads
use open_pa.Queue.Threads.Invariant.{Inv}
use open_pa.Queue.Threads.{linking, set_link, Owns, Producer}
use open_pa.Queue.Delayed.Invariant.{view, Local, Sim}
use open_pa.Queue.Delayed.Frames.{Waits-kept, each_place, Unique-set, Private-set}
use open_pa.Queue.Delayed.{
  set_buffer, fill, clear_link, set_writer, link, Writer, Buffer, System, outside, filling,
  clearing_link, at_barrier, at_link, Has,
}

some-injective : {x y : ℕ} → some x ≡ some y → x ≡ y
some-injective e = cc

some-none : {x : ℕ} → some x ≡ none → ⊥
some-none e = cc

linking_both : {p a r c : ℕ} → p ≡ r → a ≡ c → linking p a ≡ linking r c
linking_both e f = cc

module _ (t : System) (s : Threads.System) (i : ℕ) (h : Sim t s) where
  -- A step of which the other threads see nothing yet.
  advance-Sim :
      (w : Writer) (b : Buffer)
      → ((a : ℕ) → Has (t.writers i) a → Has w a)
      → ((a : ℕ) → Has w a → Has (t.writers i) a)
      → Local (view t s) w b (s.producers i)
      → Sim (set_writer (set_buffer t i b) i w) s
  advance-Sim w b k m l = record {
    same = h.same;
    next =
        λ p. elim (h.next p) [ inl e ↦ inl e | inr e ↦ inr (Private-set t.writers i w p (k p) e) ];
    contents = λ p. elim (h.contents p) [
      | inl e ↦ inl e
      | inr e ↦ inr (Private-set t.writers i w p (k p) e)
    ];
    unique =
        Unique-set t.writers i w (λ a n j d o. ==-ne i j d (h.unique i j a (m a n) o)) h.unique;
    local = each_place _ i (rw (==-self i) l) λ j d. rw d (h.local j);
  }

  writer_here : (w : Writer) → t.writers i ≡ w → Local (view t s) w (t.buffers i) (s.producers i)
  writer_here w e = subst (λ w. Local (view t s) w (t.buffers i) (s.producers i)) e (h.local i)

  fill-Local :
      (a c : ℕ) (b : Buffer) (q : Producer)
      → Local (view t s) (filling a c) b q
      → Local (view t s) (clearing_link a) (record b { content = set_at b.content a (some c) }) q
  fill-Local a c b q l =
      let (x, k, g) = l.stage in
      record {
        stage = (x, k, inr (set_at_self b.content a (some c) ∙ ap some (sym g)));
        head = l.head;
        links = l.links;
        content = λ p y e. elim (set_at-cases b.content a (some c) p (some y) e) [
          | inl (d, f) ↦ (d, sym (some-injective f) ∙ sym g ∙ ap t.given d)
          | inr f ↦ l.content p y f
        ];
      }

  pub fill-Sim : (a c : ℕ) → t.writers i ≡ filling a c → Sim (fill i a c t) s
  unfolding fill
  fill-Sim a c e =
      advance-Sim (clearing_link a) _ (λ x m. subst (λ w. Has w x) e m)
        (λ x m. subst (λ w. Has w x) (sym e) m)
        (fill-Local a c (t.buffers i) (s.producers i) (writer_here (filling a c) e))

  clear-Local :
      (a : ℕ) (b : Buffer)
      → Inv s
      → Local (view t s) (clearing_link a) b (s.producers i)
      → Local
          (view t s)
          (at_barrier a)
          (record b { next = set_at b.next a (some 0) })
          (s.producers i)
  clear-Local a b v l =
      let (x, k, g) = l.stage in
      record {
        stage = (Waits-kept s b i a (some 0) v k.1 x, k, g, inr (set_at_self b.next a (some 0)));
        head = l.head;
        links = λ p y e. elim (set_at-cases b.next a (some 0) p (some y) e) [
          | inl (d, f) ↦ inl (d, sym (some-injective f))
          | inr f ↦ l.links p y f
        ];
        content = l.content;
      }

  pub clear_link-Sim : (a : ℕ) → Inv s → t.writers i ≡ clearing_link a → Sim (clear_link i a t) s
  unfolding clear_link
  clear_link-Sim a v e =
      advance-Sim (at_barrier a) _ (λ x m. subst (λ w. Has w x) e m)
        (λ x m. subst (λ w. Has w x) (sym e) m)
        (clear-Local a (t.buffers i) v (writer_here (clearing_link a) e))

  head-Local :
      (p a : ℕ) (b : Buffer)
      → p ≡ 0
      → Local (view t s) (at_link p a) b (s.producers i)
      → Local (view t s) outside (record b { head = some a }) (s.producers i)
  head-Local p a b z l =
      let (e, (m, n, o)) = l.stage in
      record {
        stage = inr (p, a, e, inl (z, refl));
        head = λ x k. e ∙ linking_both z (some-injective k);
        links = λ x y k. absurd (some-none (sym k ∙ n x));
        content = λ x y k. absurd (some-none (sym k ∙ o x));
      }

  link-Local :
      (p a : ℕ) (b : Buffer)
      → p ≢ 0
      → Local (view t s) (at_link p a) b (s.producers i)
      → Local (view t s) outside (record b { next = set_at b.next p (some a) }) (s.producers i)
  link-Local p a b z l =
      let (e, (m, n, o)) = l.stage in
      record {
        stage = inr (p, a, e, inr (z, set_at_self b.next p (some a)));
        head = λ x k. absurd (some-none (sym k ∙ m));
        links = λ x y k. elim (set_at-cases b.next p (some a) x (some y) k) [
          | inl (d, f) ↦ inr ((λ g. z (d ∙ g)), e ∙ linking_both d (some-injective f))
          | inr f ↦ absurd (some-none (sym f ∙ n x))
        ];
        content = λ x y k. absurd (some-none (sym k ∙ o x));
      }

  pub link-Sim : (p a : ℕ) → t.writers i ≡ at_link p a → Sim (link i p a t) s
  unfolding link
  link-Sim p a e =
      let none_had = λ (x : ℕ) (m : Has (t.writers i) x). subst (λ w. Has w x) e m in
      let l = writer_here (at_link p a) e in
      elim (Bool-cases (p == 0)) [
        | inl z ↦ rw z (
            advance-Sim outside _ none_had (λ x m. absurd m)
              (head-Local p a (t.buffers i) (==-eq p 0 z) l))
        | inr z ↦ rw z (
            advance-Sim outside _ none_had (λ x m. absurd m)
              (link-Local p a (t.buffers i) (==-ne p 0 z) l))
      ]
