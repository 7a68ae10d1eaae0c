-- ===== src/Queue/Delayed/Passes.antt =====
-- A producer passes its barrier, which for its counterpart in Queue.Threads is the call and the store of
-- the null link; and swaps the tail, with its counterpart.
use open_pa.Base.{
  refl, [], ◌∙◌, ◌∷◌, ==-self, ◌++◌, ==-eq, ap, Bool-cases, set_at_self, sym, ==-ne, false, ◌==◌,
  subst, ℕ, ◌≡◌, ◌≢◌, none, inl, inr,
}
use open_pa.Queue.Shape.{NotIn-snoc}
use open_pa.Queue.Threads
use open_pa.Queue.Threads.{
  set_producer, linking, set_link, clearing, Owns, swapping, idle, produce_at, Producer, Reachable,
  Step,
}
use open_pa.Queue.Threads.Solo.{producing, cleared}
use open_pa.Queue.Delayed.Invariant.{
  over, Private, Kept, view, Cleared, Local, Stage, Written, View, Sim,
}
use open_pa.Queue.Delayed.Frames.{
  Local-Extends, Unique-set, each_place, Kept-set, Private-set, Waits-idle, Extends,
}
use open_pa.Queue.Delayed.{
  swap, set_writer, Writer, Buffer, System, at_barrier, at_swap, at_link, Has, IsEmpty,
}

-- The counterpart goes on.
pub produce-Reachable :
    (next : ℕ → ℕ) (s : Threads.System) (i : ℕ) (q : Producer)
    → s.producers i ≡ q
    → Reachable next s
    → Reachable next (produce_at q i s)
produce-Reachable next s i q e r =
    subst (Reachable next) (producing s i q e) (Reachable.then r (Step.producer i))

pub cleared-Reachable :
    (next : ℕ → ℕ) (s : Threads.System) (i a : ℕ)
    → s.producers i ≡ idle
    → Kept s a
    → Reachable next s
    → Reachable next (cleared s i a)
unfolding produce_at
cleared-Reachable next s i a e (z, m, n, f) r =
    produce-Reachable next _ i (clearing a) (set_at_self s.producers i (clearing a))
      (Reachable.then r (Step.begin_enqueue i a e z m n f))

Written-empty :
    (v : View) (b : Buffer) (a : ℕ) → IsEmpty b → Written v b a → v.contents a ≡ v.given a
Written-empty v b a m (inl e) = e
Written-empty v b a (_, _, m) (inr e) = let n : b.content a ≡ none = m a in cc

Cleared-empty : (v : View) (b : Buffer) (a : ℕ) → IsEmpty b → Cleared v b a → v.next a ≡ 0
Cleared-empty v b a m (inl e) = e
Cleared-empty v b a (_, m, _) (inr e) = let n : b.next a ≡ none = m a in cc

-- A producer with an empty buffer.
empty-Local :
    (v : View) (w : Writer) (b : Buffer) (q : Producer) → IsEmpty b → Stage v w b q → Local v w b q
empty-Local v w b q (m, n, o) h = record {
  stage = h;
  head = λ x e. cc;
  links = λ p x e. let k : b.next p ≡ none = n p in cc;
  content = λ p x e. let k : b.content p ≡ none = o p in cc;
}

module _ (t : System) (s : Threads.System) (i a : ℕ) (h : Sim t s) where
  at_wall :
      t.writers i ≡ at_barrier a → Local (view t s) (at_barrier a) (t.buffers i) (s.producers i)
  at_wall e = subst (λ w. Local (view t s) w (t.buffers i) (s.producers i)) e (h.local i)

  pub pass-idle :
      t.writers i ≡ at_barrier a → IsEmpty (t.buffers i) → (s.producers i ≡ idle) × Kept s a
  pass-idle e m =
      let (x, k, _, _) = (at_wall e).stage in (Waits-idle (t.buffers i) (s.producers i) m x, k)

  pass-Extends :
      t.writers i ≡ at_barrier a
      → (j b : ℕ) → (i == j) ≡ false
      → Has (t.writers j) b
      → Extends (view t s) (view (set_writer t i (at_swap a)) (cleared s i a)) b
  pass-Extends e j b d m = record {
    kept = λ k.
        Kept-set (over s s.next (set_producer s.producers i (clearing a))) (set_link s.next a 0) i
          (swapping a) b other (Kept-set s s.next i (clearing a) b other k);
    given = refl;
    contents = λ c. c;
    next = λ c. c;
  }
    where
      other : a ≢ b
      other f = ==-ne i j d (h.unique i j b (subst (λ w. Has w b) (sym e) f) m)

  pub pass-Sim :
      t.writers i ≡ at_barrier a
      → IsEmpty (t.buffers i)
      → Sim (set_writer t i (at_swap a)) (cleared s i a)
  pass-Sim e m =
      let (_, _, f, g) = (at_wall e).stage in
      let others = λ (p : ℕ) (d : (a == p) ≡ false) (k : Private t p).
        Private-set t.writers i (at_swap a) p (λ o. absurd (==-ne a p d (subst (λ w. Has w p) e o)))
          k in
      record {
        same = h.same;
        next = λ p. elim (Bool-cases (a == p)) [
          | inl d ↦ inl (
              rw d (
                ap t.shared.next (sym (==-eq a p d))
                ∙ Cleared-empty (view t s) (t.buffers i) a m g))
          | inr d ↦ rw d (elim (h.next p) [ inl k ↦ inl k | inr k ↦ inr (others p d k) ])
        ];
        contents = λ p. elim (Bool-cases (a == p)) [
          | inl d ↦ inl (
              subst (λ p. t.contents p ≡ t.given p) (==-eq a p d)
                (Written-empty (view t s) (t.buffers i) a m f))
          | inr d ↦ elim (h.contents p) [ inl k ↦ inl k | inr k ↦ inr (others p d k) ]
        ];
        unique = Unique-set t.writers i (at_swap a) (λ b k. absurd k) h.unique;
        local = each_place _ i (rw (==-self i) (empty-Local _ _ _ _ m (refl, m))) λ j d. rw d (
            Local-Extends (view t s) _ (t.writers j) (t.buffers j) (s.producers j)
              (λ b. pass-Extends e j b d) (h.local j));
      }

  pub at_swap-swapping : t.writers i ≡ at_swap a → s.producers i ≡ swapping a
  at_swap-swapping e =
      (subst (λ w. Local (view t s) w (t.buffers i) (s.producers i)) e (h.local i)).stage.0

  swap-Extends :
      t.writers i ≡ at_swap a
      → (b : ℕ) → Extends (view t s) (view (swap i a t) (produce_at (swapping a) i s)) b
  unfolding swap produce_at
  swap-Extends e b = record {
    kept = λ (z, m, n, f).
        let d : b ≢ a = λ g. f i (subst (λ q. Owns q b) (sym (at_swap-swapping e)) (sym g)) in
        (
          z,
          NotIn-snoc b s.queued a m d,
          n,
          each_place _ i (rw (==-self i) (λ g. d (sym g))) λ j k. rw k (f j),
        );
    given = refl;
    contents = λ c. c;
    next = λ c. c;
  }

  pub swap-Sim : t.writers i ≡ at_swap a → Sim (swap i a t) (produce_at (swapping a) i s)
  unfolding swap produce_at
  swap-Sim e =
      let l = subst (λ w. Local (view t s) w (t.buffers i) (s.producers i)) e (h.local i) in
      let others = λ (p : ℕ) (k : Private t p).
        Private-set t.writers i (at_link t.shared.tail a) p (λ o. absurd (subst (λ w. Has w p) e o))
          k in
      record {
        same =
            ap {A = Threads.System} {B = Threads.System}
              (λ u. record u {
                tail = a;
                entered = u.entered ++ a ∷ [];
                queued = u.queued ++ a ∷ [];
              })
              h.same;
        next = λ p. elim (h.next p) [ inl k ↦ inl k | inr k ↦ inr (others p k) ];
        contents = λ p. elim (h.contents p) [ inl k ↦ inl k | inr k ↦ inr (others p k) ];
        unique = Unique-set t.writers i (at_link t.shared.tail a) (λ b k. absurd k) h.unique;
        local =
            each_place _ i
              (rw (==-self i) (
                empty-Local _ _ _ _ l.stage.1 (ap (λ u. linking u.tail a) (sym h.same), l.stage.1)))
              λ j d. rw d (
                Local-Extends (view t s) _ (t.writers j) (t.buffers j) (s.producers j)
                  (λ b _. swap-Extends e b) (h.local j));
      }
