-- ===== src/Queue/Delayed/Links.antt =====
-- The store of the link to a producer's element takes effect, with the counterpart's store.
use open_pa.Base.{
  set_at_self, subst, set_at-cases, ==-eq, ◌==◌, set_at-other, Bool-cases, set_at, ==-self, sym, ap,
  ◌∙◌, refl, ℕ, ◌≡◌, ◌≢◌, none, some, inl, inr,
}
use open_pa.Queue.Threads
use open_pa.Queue.Threads.Invariant.{Inv}
use open_pa.Queue.Delayed.Invariant.{Local, Stage, view, Sim, View}
use open_pa.Queue.Threads.{set_link, idle, set_producer, Producer, linking, produce_at}
use open_pa.Queue.Delayed.Frames.{
  Has-kept, linked_elsewhere, Local-Extends, Cleared-moved, each_place, Written-moved, Kept-set,
  Extends,
}
use open_pa.Queue.Threads.Owners.{same_prev}
use open_pa.Queue.Delayed.{
  deliver_next, deliver_head, Writer, Buffer, System, outside, filling, clearing_link, at_barrier,
  at_swap, at_link, Has, IsEmpty,
}

-- The counterpart is back from the call.
Stage-back :
    (v u : View) (w : Writer) (b c : Buffer) (q : Producer) (p x : ℕ)
    → q ≡ linking p x
    → (IsEmpty b → ⊥)
    → ((a : ℕ) → b.content a ≡ c.content a)
    → ((a : ℕ) → Has w a → b.next a ≡ c.next a)
    → ((a : ℕ) → Has w a → Extends v u a)
    → Stage v w b q
    → Stage u w c idle
Stage-back v u outside b c q p x e n k l o h = inl refl
Stage-back v u (filling a y) b c q p x e n k l o (_, f, g) =
    (inl refl, (o a refl).kept f, (o a refl).given ∙ g)
Stage-back v u (clearing_link a) b c q p x e n k l o (_, f, g) =
    (inl refl, (o a refl).kept f, Written-moved v u b c a (o a refl) (k a) g)
Stage-back v u (at_barrier a) b c q p x e n k l o (_, f, g, d) = (
  inl refl,
  (o a refl).kept f,
  Written-moved v u b c a (o a refl) (k a) g,
  Cleared-moved v u b c a (o a refl) (l a refl) d,
)
Stage-back v u (at_swap a) b c q p x e n k l o (_, m) = absurd (n m)
Stage-back v u (at_link r a) b c q p x e n k l o (_, m) = absurd (n m)

module _ (t : System) (s : Threads.System) (i : ℕ) (x : ℕ) (h : Sim t s) where
  head_Local :
      (w : Writer) (b : Buffer) (q : Producer) (u : View)
      → q ≡ linking 0 x
      → b.head ≡ some x
      → ((a : ℕ) → Has w a → Extends (view t s) u a)
      → Local (view t s) w b q
      → Local u w (record b { head = none }) idle
  head_Local w b q u e k o l = record {
    stage =
        Stage-back (view t s) u w b (record b { head = none }) q 0 x e (λ m. let n = m.0 in cc)
          (λ a. refl) (λ a _. refl) o l.stage;
    head = λ y f. cc;
    links = λ r y f. elim (l.links r y f) [
      | inl g ↦ inl g
      | inr (z, g) ↦ absurd (z (same_prev (sym g ∙ e)))
    ];
    content = λ r y f. let (g, d) = l.content r y f in (g, d ∙ sym (o r g).given);
  }

  pub deliver_head-Sim :
      (t.buffers i).head ≡ some x → Sim (deliver_head i x t) (produce_at (linking 0 x) i s)
  unfolding produce_at
  deliver_head-Sim e =
      let u : View = view t (produce_at (linking 0 x) i s) in
      let extended : (a : ℕ) → Extends (view t s) u a = λ a. record {
        kept = λ k. Kept-set s s.next i idle a (λ f. f) k;
        given = refl;
        contents = λ f. f;
        next = λ f. f;
      } in
      record {
        same = ap {A = Threads.System} {B = Threads.System} (λ u. record u { head = x }) h.same;
        next = h.next;
        contents = h.contents;
        unique = h.unique;
        local =
            each_place _ i
              (rw (==-self i) (
                head_Local (t.writers i) (t.buffers i) (s.producers i) u ((h.local i).head x e) e
                  (λ a _. extended a) (h.local i)))
              λ j d. rw d (
                Local-Extends (view t s) u (t.writers j) (t.buffers j) (s.producers j)
                  (λ a _. extended a) (h.local j));
      }

  module _ (p : ℕ) (z : p ≢ 0) where
    abbrev linked : Threads.System
    linked = record s { next = set_link s.next p x; producers = set_producer s.producers i idle }

    produce_at-linked : produce_at (linking p x) i s ≡ linked
    unfolding produce_at
    produce_at-linked = elim (Bool-cases (p == 0)) [
      | inl e ↦ absurd (z (==-eq p 0 e))
      | inr e ↦ rw e refl
    ]

    linked-Local :
        (w : Writer) (b : Buffer) (q : Producer) (u : View)
        → q ≡ linking p x
        → b.next p ≡ some x
        → ((a : ℕ) → Has w a → a ≢ p)
        → ((a : ℕ) → Has w a → Extends (view t s) u a)
        → Local (view t s) w b q
        → Local u w (record b { next = set_at b.next p none }) idle
    linked-Local w b q u e k m o l = record {
      stage =
          Stage-back (view t s) u w b (record b { next = set_at b.next p none }) q p x e
            (λ (_, n, _). let n : b.next p ≡ none = n p in cc) (λ a. refl)
            (λ a f. sym (set_at-other b.next p none a (λ g. m a f (sym g)))) o l.stage;
      head = λ y f. absurd (z (same_prev (sym e ∙ l.head y f)));
      links = λ r y f. elim (set_at-cases b.next p none r (some y) f) [
        | inl g ↦ let n = g.1 in cc
        | inr g ↦ elim (l.links r y g) [
          | inl d ↦ inl d
          | inr (_, d) ↦
              let n : p ≡ r = same_prev (sym e ∙ d) in
              let c : none ≡ some y =
                sym (subst (λ r. set_at b.next p none r ≡ none) n (set_at_self b.next p none))
                ∙ f in
              cc
        ]
      ];
      content = λ r y f. let (g, d) = l.content r y f in (g, d ∙ sym (o r g).given);
    }

    pub deliver_link-Sim :
        Inv s
        → (t.buffers i).next p ≡ some x
        → s.producers i ≡ linking p x
        → Sim (deliver_next i p x t) (produce_at (linking p x) i s)
    deliver_link-Sim v e q =
        let u : View = view (deliver_next i p x t) linked in
        let other : (j a : ℕ) → Has (t.writers j) a → p ≢ a = λ j a m f.
          linked_elsewhere s i p x a v q z
            (Has-kept (view t s) (t.writers j) (t.buffers j) (s.producers j) a (h.local j).stage
              m).1
            (sym f) in
        let extended : (j a : ℕ) → Has (t.writers j) a → Extends (view t s) u a = λ j a m. record {
          kept = λ k. Kept-set s (set_link s.next p x) i idle a (λ f. f) k;
          given = refl;
          contents = λ f. f;
          next = λ f. set_at-other t.shared.next p x a (other j a m) ∙ f;
        } in
        subst (Sim (deliver_next i p x t)) (sym produce_at-linked) record {
          same =
              ap {A = Threads.System} {B = Threads.System}
                (λ u. record u {
                  next = set_link t.shared.next p x;
                  producers = t.shared.producers;
                })
                h.same;
          next =
              λ a. elim (Bool-cases (p == a)) [ inl d ↦ inl (rw d refl) | inr d ↦ rw d (h.next a) ];
          contents = h.contents;
          unique = h.unique;
          local =
              each_place _ i
                (rw (==-self i) (
                  linked-Local (t.writers i) (t.buffers i) (s.producers i) u q e
                    (λ a m f. other i a m (sym f)) (extended i) (h.local i)))
                λ j d. rw d (
                  Local-Extends (view t s) u (t.writers j) (t.buffers j) (s.producers j)
                    (extended j) (h.local j));
        }
