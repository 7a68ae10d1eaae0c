-- ===== src/Queue/Threads/Producers.antt =====
-- The accesses of the producers keep the invariant.
use open_pa.Base.{
  ℕ, ◌≡◌, ◌≢◌, ◌==◌, true, false, List, [], ◌∷◌, inl, inr, refl, arith, sym, ◌∙◌, subst,
}
use open_pa.Queue.Shape.{first}
use open_pa.Queue.Threads.{
  Producer, Consumer, System, idle, clearing, swapping, linking, set_link, set_producer, Owns,
  produce_at,
}
use open_pa.Queue.Threads.Owners.{
  Front-kept, Owner-zeroed, Unique-kept, each-Owner, first-NotIn, linked_nonzero, same_prev,
  zeroed_elsewhere,
}
use open_pa.Queue.Threads.Invariant.{
  Inv, Owner, Front, Place, Valid, Follows, AtRest, kept_at, Chain-frame, Chain-producers,
  Chain-link, NotIn-Follows, Follows-nonzero, Follows-unique,
}

eq_zero : (p : ℕ) → (p == 0) ≡ true → p ≡ 0
eq_zero p e = ground arith

at_head :
    (s : System) (p a : ℕ)
    → (p == 0) ≡ true
    → Owner s (linking p a)
    → (a ≡ first s.queued) × (a ≢ 0) × (s.shadow_head ≡ 0) × AtRest s.consumer
at_head s p a nz (inl (_, f, z, _, sz, t)) = (f, z, sz, t)
at_head s p a nz (inr (n, _, _)) = absurd (n (ground (arith, nz)))

module _ (s : System) (i a : ℕ) where
  pub clear-Inv : s.producers i ≡ clearing a → Inv s → Inv (produce_at (clearing a) i s)
  unfolding produce_at
  clear-Inv e h =
      let o : Owner s (clearing a) = subst (Owner s) e (h.owners i) in
      let ps = set_producer s.producers i (swapping a) in
      let keep : (j x y : ℕ) → s.producers j ≡ linking x y → ps j ≡ linking x y =
        λ j x y f. kept_at s.producers i j (swapping a) (linking x y) (λ g. cc) f in
      record {
        history = h.history;
        valid = h.valid;
        tail = h.tail;
        chain = Chain-frame s.next s.producers _ a 0 s.queued o.1 keep h.chain;
        owners =
            each-Owner s.producers i (swapping a) (produce_at (clearing a) i s)
              (o.0, o.1, o.2, ground arith) λ j d. Owner-zeroed s a ps (s.producers j) (h.owners j);
        unique =
            Unique-kept s.producers i (swapping a) (λ c z. subst (λ p. Owns p c) (sym e) z)
              h.unique;
        front =
            Front-kept s _ _ s.consumer (λ j y. keep j 0 y)
              (λ c f z. zeroed_elsewhere s.next a c (first-NotIn a c s.queued o.1 f z)) h.front;
      }

  -- The head is set.
  Owner-headed :
      (ps : ℕ → Producer) (q : Producer)
      → a ≡ first s.queued
      → (Owns q a → ⊥)
      → Owner s q
      → Owner (record s { head = a; producers = ps }) q
  Owner-headed ps idle f d o = tt
  Owner-headed ps (clearing b) f d o = o
  Owner-headed ps (swapping b) f d o = o
  Owner-headed ps (linking r b) f d (inl (z, g, _, _, _, _)) = absurd (d (g ∙ sym f))
  Owner-headed ps (linking r b) f d (inr o) = inr o

  Place-headed :
      (ps : ℕ → Producer) (q : List ℕ)
      → a ≡ first q
      → a ≢ 0
      → s.shadow_head ≡ 0
      → Place (record s { head = a; producers = ps }) q
  Place-headed ps [] f z e = absurd (z f)
  Place-headed ps (x ∷ rs) f z e = inr (inl (e, f))

  Front-headed :
      (ps : ℕ → Producer) (c : Consumer)
      → a ≡ first s.queued
      → a ≢ 0
      → s.shadow_head ≡ 0
      → AtRest c
      → Front s c
      → Front (record s { head = a; producers = ps }) c
  Front-headed ps Consumer.resting f z e t h = Place-headed ps s.queued f z e
  Front-headed ps Consumer.testing f z e t h = (Place-headed ps s.queued f z e, e)
  Front-headed ps Consumer.copying f z e t h = absurd t
  Front-headed ps Consumer.resetting f z e t h = absurd t
  Front-headed ps (Consumer.loading x) f z e t h = absurd t
  Front-headed ps (Consumer.swinging x) f z e t h = absurd t
  Front-headed ps (Consumer.waiting x) f z e t h = absurd t
  Front-headed ps (Consumer.copying_next x) f z e t h = absurd t
  Front-headed ps (Consumer.ending x) f z e t (h, m) = (Place-headed ps s.queued f z e, m)

  pub head-Inv :
      (p : ℕ)
      → s.producers i ≡ linking p a
      → (p == 0) ≡ true
      → Inv s
      → Inv (record s { head = a; producers = set_producer s.producers i idle })
  head-Inv p e nz h =
      let ps = set_producer s.producers i idle in
      let o : Owner s (linking p a) = subst (Owner s) e (h.owners i) in
      let (f, z, sz, t) = at_head s p a nz o in
      record {
        history = h.history;
        valid = h.valid;
        tail = h.tail;
        chain =
            Chain-producers s.next s.producers ps s.queued h.valid
              (λ j x y d g.
                kept_at s.producers i j idle (linking x y)
                  (λ t. d (same_prev (sym t ∙ e) ∙ eq_zero p nz)) g)
              h.chain;
        owners =
            each-Owner s.producers i idle (record s { head = a; producers = ps }) tt
              λ j d.
                Owner-headed ps (s.producers j) f
                  (λ w. d (h.unique i j a (subst (λ q. Owns q a) (sym e) refl) w)) (h.owners j);
        unique = Unique-kept s.producers i idle (λ c z. absurd z) h.unique;
        front = Front-headed ps s.consumer f z sz t h.front;
      }

  -- The link to the element before is stored.
  Owner-linked :
      (p : ℕ) (ps : ℕ → Producer) (q : Producer)
      → Valid s.queued
      → Follows p a s.queued
      → (Owns q a → ⊥)
      → Owner s q
      → Owner (record s { next = set_link s.next p a; producers = ps }) q
  Owner-linked p ps idle w f d o = tt
  Owner-linked p ps (clearing b) w f d o = o
  Owner-linked p ps (swapping b) w f d (z, m, k, e) =
      let n : b ≢ p = NotIn-Follows p a b s.queued m f in (z, m, k, ground (arith, n, e))
  Owner-linked p ps (linking r b) w f d (inl o) = inl o
  Owner-linked p ps (linking r b) w f d (inr (z, e, g)) =
      let n : r ≢ p =
        λ t. d (Follows-unique p b a s.queued w (subst (λ x. Follows x b s.queued) t g) f) in
      inr (z, ground (arith, n, e), g)

  pub link-Inv :
      (p : ℕ)
      → s.producers i ≡ linking p a
      → (p == 0) ≡ false
      → Inv s
      → Inv (record s { next = set_link s.next p a; producers = set_producer s.producers i idle })
  link-Inv p e nz h =
      let ps = set_producer s.producers i idle in
      let o : Owner s (linking p a) = subst (Owner s) e (h.owners i) in
      let f : Follows p a s.queued = elim o [
        | inl x ↦ absurd (ground (arith, x.0, nz))
        | inr x ↦ x.2
      ] in
      let keep : (j x y : ℕ) → x ≢ p → s.producers j ≡ linking x y → ps j ≡ linking x y =
        λ j x y d g.
          kept_at s.producers i j idle (linking x y) (λ t. d (same_prev (sym t ∙ e))) g in
      record {
        history = h.history;
        valid = h.valid;
        tail = h.tail;
        chain = Chain-link s.next s.producers ps p a s.queued h.valid f keep h.chain;
        owners =
            each-Owner s.producers i idle (record s { next = set_link s.next p a; producers = ps })
              tt
              λ j d.
                Owner-linked p ps (s.producers j) h.valid f
                  (λ w. d (h.unique i j a (subst (λ q. Owns q a) (sym e) refl) w)) (h.owners j);
        unique = Unique-kept s.producers i idle (λ c z. absurd z) h.unique;
        front =
            Front-kept s _ _ s.consumer (λ j y. keep j 0 y (λ t. ground (arith, t, nz)))
              (λ c g z t. linked_nonzero s.next p a c (Follows-nonzero p a s.queued f) t) h.front;
      }
