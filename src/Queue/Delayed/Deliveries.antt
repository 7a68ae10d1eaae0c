-- ===== src/Queue/Delayed/Deliveries.antt =====
-- The stores to an element before its producer's barrier take effect: the contents and the null link.
use open_pa.Base.{
  set_at_self, ==-self, sym, ==-eq, set_at-cases, ◌∙◌, subst, ap, set_at, ◌==◌, Bool-cases, refl, ℕ,
  ◌≡◌, none, some, inl, inr,
}
use open_pa.Queue.Threads
use open_pa.Queue.Threads.Invariant.{Inv}
use open_pa.Queue.Delayed.Invariant.{Local, Kept, Stage, Waits, view, View, Sim}
use open_pa.Queue.Delayed.Frames.{Waits-kept, each_place, Has-kept, Local-Extends, Extends}
use open_pa.Queue.Threads.{set_link, Producer}
use open_pa.Queue.Delayed.{
  deliver_content, deliver_next, Writer, Buffer, System, outside, filling, clearing_link,
  at_barrier, at_swap, at_link, Has,
}

module _ (t : System) (s : Threads.System) (i p x : ℕ) (h : Sim t s) (m : Has (t.writers i) p) where
  content_Extends :
      x ≡ t.given p → (a : ℕ) → Extends (view t s) (view (deliver_content i p x t) s) a
  content_Extends z a = record {
    kept = λ k. k;
    given = refl;
    contents = λ e. elim (Bool-cases (p == a)) [
      | inl d ↦ rw d (z ∙ ap t.given (==-eq p a d))
      | inr d ↦ rw d e
    ];
    next = λ e. e;
  }

  -- What was to be written is written.
  content_Stage :
      (u : View) (w : Writer) (b : Buffer) (q : Producer)
      → Has w p
      → u.contents p ≡ u.given p
      → Stage u w b q
      → Stage u w (record b { content = set_at b.content p none }) q
  content_Stage u outside b q k e g = absurd k
  content_Stage u (filling a c) b q k e g = g
  content_Stage u (clearing_link a) b q k e (f, n, _) =
      (f, n, inl (subst (λ a. u.contents a ≡ u.given a) (sym k) e))
  content_Stage u (at_barrier a) b q k e (f, n, _, l) =
      (f, n, inl (subst (λ a. u.contents a ≡ u.given a) (sym k) e), l)
  content_Stage u (at_swap a) b q k e g = absurd k
  content_Stage u (at_link r a) b q k e g = absurd k

  content_Local :
      (u : View) (w : Writer) (b : Buffer) (q : Producer)
      → Has w p
      → u.contents p ≡ u.given p
      → Local u w b q
      → Local u w (record b { content = set_at b.content p none }) q
  content_Local u w b q k e l = record {
    stage = content_Stage u w b q k e l.stage;
    head = l.head;
    links = l.links;
    content = λ r y f. elim (set_at-cases b.content p none r (some y) f) [
      | inl g ↦ let n = g.1 in cc
      | inr g ↦ l.content r y g
    ];
  }

  pub deliver_content-Sim : x ≡ t.given p → Sim (deliver_content i p x t) s
  deliver_content-Sim z =
      let extended = λ (j : ℕ).
        Local-Extends (view t s) (view (deliver_content i p x t) s) (t.writers j) (t.buffers j)
          (s.producers j) (λ a _. content_Extends z a) (h.local j) in
      record {
        same = h.same;
        next = h.next;
        contents = λ a. elim (Bool-cases (p == a)) [
          | inl d ↦ inl (rw d (z ∙ ap t.given (==-eq p a d)))
          | inr d ↦ rw d (h.contents a)
        ];
        unique = h.unique;
        local =
            each_place _ i
              (rw (==-self i) (
                content_Local (view (deliver_content i p x t) s) (t.writers i) (t.buffers i)
                  (s.producers i) m (set_at_self t.contents p x ∙ z) (extended i)))
              λ j d. rw d (extended j);
      }

  null_Extends : x ≡ 0 → (a : ℕ) → Extends (view t s) (view (deliver_next i p x t) s) a
  null_Extends z a = record {
    kept = λ k. k;
    given = refl;
    contents = λ e. e;
    next = λ e. elim (Bool-cases (p == a)) [ inl d ↦ rw d z | inr d ↦ rw d e ];
  }

  -- What was to be cleared is cleared.
  null_Stage :
      (u : View) (w : Writer) (b : Buffer) (q : Producer)
      → Has w p
      → u.next p ≡ 0
      → (Waits b q → Waits (record b { next = set_at b.next p none }) q)
      → Stage u w b q
      → Stage u w (record b { next = set_at b.next p none }) q
  null_Stage u outside b q k e f g = absurd k
  null_Stage u (filling a c) b q k e f (g, n, o) = (f g, n, o)
  null_Stage u (clearing_link a) b q k e f (g, n, o) = (f g, n, o)
  null_Stage u (at_barrier a) b q k e f (g, n, o, _) =
      (f g, n, o, inl (subst (λ a. u.next a ≡ 0) (sym k) e))
  null_Stage u (at_swap a) b q k e f g = absurd k
  null_Stage u (at_link r a) b q k e f g = absurd k

  null_Local :
      (u : View) (w : Writer) (b : Buffer) (q : Producer)
      → Has w p
      → u.next p ≡ 0
      → (Waits b q → Waits (record b { next = set_at b.next p none }) q)
      → Local u w b q
      → Local u w (record b { next = set_at b.next p none }) q
  null_Local u w b q k e f l = record {
    stage = null_Stage u w b q k e f l.stage;
    head = l.head;
    links = λ r y o. elim (set_at-cases b.next p none r (some y) o) [
      | inl g ↦ let n = g.1 in cc
      | inr g ↦ l.links r y g
    ];
    content = l.content;
  }

  -- The null link of the element.
  pub deliver_null-Sim : x ≡ 0 → Inv s → Sim (deliver_next i p x t) s
  deliver_null-Sim z v =
      let extended = λ (j : ℕ).
        Local-Extends (view t s) (view (deliver_next i p x t) s) (t.writers j) (t.buffers j)
          (s.producers j) (λ a _. null_Extends z a) (h.local j) in
      let k : Kept s p =
        Has-kept (view t s) (t.writers i) (t.buffers i) (s.producers i) p (h.local i).stage m in
      record {
        same =
            ap {A = Threads.System} {B = Threads.System}
              (λ u. record u { next = set_link t.shared.next p x; producers = t.shared.producers })
              h.same;
        next = λ a. elim (Bool-cases (p == a)) [
          | inl d ↦ inr (i, subst (Has (t.writers i)) (==-eq p a d) m)
          | inr d ↦ rw d (h.next a)
        ];
        contents = h.contents;
        unique = h.unique;
        local =
            each_place _ i
              (rw (==-self i) (
                null_Local (view (deliver_next i p x t) s) (t.writers i) (t.buffers i)
                  (s.producers i) m (set_at_self t.shared.next p x ∙ z)
                  (Waits-kept s (t.buffers i) i p none v k.1) (extended i)))
              λ j d. rw d (extended j);
      }
