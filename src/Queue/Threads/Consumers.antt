-- ===== src/Queue/Threads/Consumers.antt =====
-- Every access of the consumer keeps the invariant.
use open_pa.Base.{
  ℕ, ◌≡◌, ◌≢◌, ◌==◌, true, false, Bool-cases, List, [], ◌∷◌, ◌++◌, inl, inr, refl, arith, sym, ap,
  ◌∙◌, subst, append_assoc,
}
use open_pa.Queue.Shape.{NotIn, first, last}
use open_pa.Queue.Threads.{
  Producer, Consumer, System, linking, set_link, held, consume_at, consume, behind_first, resting,
  testing, copying, resetting, loading, swinging, waiting, copying_next, ending,
}
use open_pa.Queue.Threads.Invariant.{Valid, Inv, Owner, Front, Place, AtRest, Chain-frame}
use open_pa.Queue.Threads.Takes.{moved, take-Inv, Joined-first, last-behind, last-first}

Place-head :
    (s : System) (q : List ℕ) → Place s q → s.head ≢ 0 → (s.shadow_head ≡ 0) × (s.head ≡ first q)
Place-head s [] (x, y) z = absurd (z y)
Place-head s (r ∷ rs) (inl (x, y)) z = absurd (z y)
Place-head s (r ∷ rs) (inr (inl (x, y))) z = (x, y)
Place-head s (r ∷ rs) (inr (inr (x, y, _, _))) z = absurd (z y)

pub Place-shadow :
    (s : System) (q : List ℕ)
    → Place s q
    → s.shadow_head ≢ 0
    → (s.head ≡ 0) × (first q ≡ s.shadow_head)
Place-shadow s [] (x, y) z = absurd (z x)
Place-shadow s (r ∷ rs) (inl (x, y)) z = (y, sym x)
Place-shadow s (r ∷ rs) (inr (inl (x, y))) z = absurd (z x)
Place-shadow s (r ∷ rs) (inr (inr (x, y, _, _))) z = absurd (z x)

-- The first element is in the shadow head.
shadow-Place : (s : System) (q : List ℕ) → s.head ≡ 0 → s.shadow_head ≡ first q → Place s q
shadow-Place s [] y x = (x, y)
shadow-Place s (r ∷ rs) y x = inl (x, y)

at_rest : {c : Consumer} (s : System) → s.consumer ≡ c → AtRest s.consumer → AtRest c
at_rest s e t = subst AtRest e t

pub is_same : (a b : ℕ) → (a == b) ≡ true → a ≡ b
is_same a b e = ground arith

pub not_same : (a b : ℕ) → (a == b) ≡ false → a ≢ b
not_same a b e = ground arith

-- A queue whose last element is not its first has a second.
more : (q : List ℕ) → Valid q → last q ≢ first q → first (behind_first q) ≢ 0
more [] v d = absurd (d refl)
more (x ∷ []) v d = absurd (d refl)
more (x ∷ y ∷ rs) (_, _, v) d = v.0

pub not_zero : (n : ℕ) → (n == 0) ≡ false → n ≢ 0
not_zero n e = ground arith

reset_zero : (n : ℕ → ℕ) (c b : ℕ) → n b ≡ 0 → set_link n c 0 b ≡ 0
reset_zero n c b e = ground arith

-- The element is returned: its link is reset.
module _ (s : System) (c : ℕ) where
  abbrev ended : System
  ended = record s {
    next = set_link s.next c 0;
    consumer = resting;
    returned = s.returned ++ c ∷ [];
  }

  Owner-ended : (p : Producer) → Owner s p → Owner ended p
  Owner-ended Producer.idle o = tt
  Owner-ended (Producer.clearing b) (z, m, _) = (z, m, tt)
  Owner-ended (Producer.swapping b) (z, m, _, n) = (z, m, tt, reset_zero s.next c b n)
  Owner-ended (linking r b) (inl (z, f, n, x, y, _)) = inl (z, f, n, x, y, tt)
  Owner-ended (linking r b) (inr (z, n, f)) = inr (z, reset_zero s.next c r n, f)

  Place-ended : (q : List ℕ) → Place s q → Place ended q
  Place-ended [] p = p
  Place-ended (r ∷ rs) p = p

  end-Inv : s.consumer ≡ ending c → Inv s → Inv (consume_at (ending c) s)
  unfolding consume_at
  end-Inv e h =
      let (p, m) : Place s s.queued × NotIn c s.queued = subst (Front s) e h.front in
      record {
        history =
            h.history
            ∙ ap (λ l. s.returned ++ (held l ++ s.queued)) e
            ∙ sym (append_assoc s.returned (c ∷ []) s.queued);
        valid = h.valid;
        tail = h.tail;
        chain = Chain-frame s.next s.producers s.producers c 0 s.queued m (λ j x y g. g) h.chain;
        owners = λ j. Owner-ended (s.producers j) (h.owners j);
        unique = h.unique;
        front = Place-ended s.queued p;
      }

module _ (s : System) (h : Inv s) where
  in-Front : {c : Consumer} → s.consumer ≡ c → Front s c
  in-Front e = subst (Front s) e h.front

  pub begin_testing :
      s.consumer ≡ resting → s.shadow_head ≡ 0 → Inv (record s { consumer = testing })
  begin_testing e z =
      moved s s.head s.shadow_head testing (ap held (sym e)) (λ x y t n. (x, y, tt)) (in-Front e, z)
        h

  pub begin_loading :
      s.consumer ≡ resting → s.shadow_head ≢ 0 → Inv (record s { consumer = loading s.shadow_head })
  begin_loading e z =
      let (y, f) = Place-shadow s s.queued (in-Front e) z in
      moved s s.head s.shadow_head (loading s.shadow_head) (ap held (sym e))
        (λ _ x _ _. absurd (z x)) (refl, y, f, z) h

  test-Inv : s.consumer ≡ testing → Inv (consume_at testing s)
  unfolding consume_at
  test-Inv e =
      let (p, z) = in-Front e in
      elim (Bool-cases (s.head == 0)) [
        | inl b ↦
            rw b
              (moved s s.head s.shadow_head resting (ap held (sym e)) (λ x y t n. (x, y, tt)) p h)
        | inr b ↦
            let (x, y) = Place-head s s.queued p (not_zero s.head b) in
            rw b (
              moved s s.head s.shadow_head copying (ap held (sym e))
                (λ x _ _ _. absurd (not_zero s.head b x)) (x, y, not_zero s.head b) h)
      ]

  copy-Inv : s.consumer ≡ copying → Inv (consume_at copying s)
  unfolding consume_at
  copy-Inv e =
      let (x, y, z) = in-Front e in
      moved s s.head s.head resetting (ap held (sym e)) (λ x _ _ _. absurd (z x)) (y, z, z) h

  reset-Inv : s.consumer ≡ resetting → Inv (consume_at resetting s)
  unfolding consume_at
  reset-Inv e =
      let (x, y, z) = in-Front e in
      moved s 0 s.shadow_head resting (ap held (sym e)) (λ x _ _ _. absurd (y x))
        (shadow-Place (record s { head = 0; consumer = resting }) s.queued refl x) h

  load-Inv : (c : ℕ) → s.consumer ≡ loading c → Inv (consume_at (loading c) s)
  unfolding consume_at
  load-Inv c e =
      let (x, y, f, z) = in-Front e in
      elim (Bool-cases (s.next c == 0)) [
        | inl b ↦ rw b (
            moved s s.head 0 (swinging c) (ap held (sym e)) (λ _ _ t _. absurd (at_rest s e t))
              (refl, y, f, z) h)
        | inr b ↦ rw b (
            moved s s.head s.shadow_head (copying_next c) (ap held (sym e))
              (λ _ _ t _. absurd (at_rest s e t)) (y, f, z, not_zero (s.next c) b) h)
      ]

  wait-Inv : (c : ℕ) → s.consumer ≡ waiting c → Inv (consume_at (waiting c) s)
  unfolding consume_at
  wait-Inv c e =
      let (x, y, f, z, w) = in-Front e in
      elim (Bool-cases (s.next c == 0)) [
        | inl b ↦ rw b h
        | inr b ↦ rw b (
            moved s s.head s.shadow_head (copying_next c) (ap held (sym e))
              (λ _ _ t _. absurd (at_rest s e t)) (y, f, z, not_zero (s.next c) b) h)
      ]

  -- The link of the first element, if it is set, leads to the second.
  second :
      (c : ℕ) → first s.queued ≡ c → c ≢ 0 → s.next c ≢ 0 → s.next c ≡ first (behind_first s.queued)
  second c f z n = elim (Joined-first s.next s.producers s.queued (λ g. z (sym f ∙ g)) h.chain) [
    | inl e ↦ ap s.next (sym f) ∙ e
    | inr (i, e) ↦ absurd (elim (subst (Owner s) e (h.owners i)) [
      | inl o ↦ z (sym f ∙ o.0)
      | inr o ↦ n (ap s.next (sym f) ∙ o.1)
    ])
  ]

  follow-Inv : (c : ℕ) → s.consumer ≡ copying_next c → Inv (consume_at (copying_next c) s)
  unfolding consume_at
  follow-Inv c e =
      let (y, f, z, n) = in-Front e in
      let l = second c f z n in
      take-Inv s c f z (ap held e) (at_rest s e) s.tail (s.next c) (λ b x _ _. n x) h
        (h.tail ∙ last-behind s.queued (λ g. n (l ∙ g)))
        (shadow-Place (consume_at (copying_next c) s) (behind_first s.queued) y l)

  swing-Inv : (c : ℕ) → s.consumer ≡ swinging c → Inv (consume_at (swinging c) s)
  unfolding consume_at
  swing-Inv c e =
      let (x, y, f, z) = in-Front e in
      elim (Bool-cases (s.tail == c)) [
        | inl b ↦
            let g = last-first s.queued h.valid (sym h.tail ∙ is_same s.tail c b ∙ sym f) in
            rw b (
              take-Inv s c f z (ap held e) (at_rest s e) 0 s.shadow_head
                (λ b _ l w. w (l ∙ ap first g)) h (ap last (sym g))
                (shadow-Place
                  (record s { tail = 0; consumer = ending c; queued = behind_first s.queued })
                  (behind_first s.queued) y (x ∙ ap first (sym g))))
        | inr b ↦ rw b (
            moved s s.head s.shadow_head (waiting c) (ap held (sym e))
              (λ _ _ t _. absurd (at_rest s e t))
              (x, y, f, z, more s.queued h.valid (λ g. not_same s.tail c b (h.tail ∙ g ∙ f))) h)
      ]

  step : (c : Consumer) → s.consumer ≡ c → Inv (consume_at c s)
  unfolding consume_at
  step resting e = h
  step testing e = test-Inv e
  step copying e = copy-Inv e
  step resetting e = reset-Inv e
  step (loading c) e = load-Inv c e
  step (swinging c) e = swing-Inv c e
  step (waiting c) e = wait-Inv c e
  step (copying_next c) e = follow-Inv c e
  step (ending c) e = end-Inv s c e h

  pub consume-Inv : Inv (consume s)
  unfolding consume
  consume-Inv = step s.consumer refl
