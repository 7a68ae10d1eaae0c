-- ===== src/Queue/Threads/Swap.antt =====
-- The swap of the tail keeps the invariant: the element enters the queue.
use open_pa.Base.{
  ℕ, ◌≡◌, ◌≢◌, List, [], ◌∷◌, ◌++◌, inl, inr, refl, sym, ap, ◌∙◌, subst, append_assoc,
}
use open_pa.Queue.Shape.{NotIn-snoc, NotIn, first, last, last-snoc}
use open_pa.Queue.Threads.{
  behind_first, Producer, Consumer, System, idle, clearing, swapping, linking, set_producer, held,
  Owns, produce_at,
}
use open_pa.Queue.Threads.Invariant.{
  Inv, Owner, Front, Place, Chain, Joined, Valid, Follows, AtRest, kept_at, Chain-snoc,
  Follows-nonzero,
}
use open_pa.Queue.Threads.Owners.{each-Owner, Unique-kept, set_producer-here}

Valid-snoc : (a : ℕ) (q : List ℕ) → a ≢ 0 → NotIn a q → Valid q → Valid (q ++ a ∷ [])
Valid-snoc a [] z m v = (z, tt, tt)
Valid-snoc a (x ∷ rs) z (n, m) (y, k, v) =
    (y, NotIn-snoc x rs a k (λ e. n (sym e)), Valid-snoc a rs z m v)

Follows-snoc : (p b a : ℕ) (q : List ℕ) → Follows p b q → Follows p b (q ++ a ∷ [])
Follows-snoc p b a [] f = absurd f
Follows-snoc p b a (x ∷ []) (inl (e, f, z)) = absurd (z f)
Follows-snoc p b a (x ∷ []) (inr f) = absurd f
Follows-snoc p b a (x ∷ y ∷ rs) (inl g) = inl g
Follows-snoc p b a (x ∷ y ∷ rs) (inr g) = inr (Follows-snoc p b a (y ∷ rs) g)

Follows-last : (x a : ℕ) (rs : List ℕ) → a ≢ 0 → Follows (last (x ∷ rs)) a (x ∷ (rs ++ a ∷ []))
Follows-last x a [] z = inl (refl, refl, z)
Follows-last x a (y ∷ rs) z = inr (Follows-last y a rs z)

first-snoc : (b a : ℕ) (q : List ℕ) → b ≡ first q → b ≢ 0 → b ≡ first (q ++ a ∷ [])
first-snoc b a [] e z = absurd (z e)
first-snoc b a (x ∷ rs) e z = e

second-snoc :
    (a : ℕ) (q : List ℕ) → first (behind_first q) ≢ 0 → first (behind_first (q ++ a ∷ [])) ≢ 0
second-snoc a [] w = absurd (w refl)
second-snoc a (x ∷ []) w = absurd (w refl)
second-snoc a (x ∷ y ∷ rs) w = w

last-nonzero : (x : ℕ) (rs : List ℕ) → Valid (x ∷ rs) → last (x ∷ rs) ≢ 0
last-nonzero x [] (z, _, _) = z
last-nonzero x (y ∷ rs) (_, _, v) = last-nonzero y rs v

-- The last link leads nowhere, or is about to lead nowhere.
last-Joined :
    (n : ℕ → ℕ) (ps : ℕ → Producer) (x : ℕ) (rs : List ℕ)
    → Chain n ps (x ∷ rs)
    → Joined n ps (last (x ∷ rs)) 0
last-Joined n ps x [] (j, _) = j
last-Joined n ps x (y ∷ rs) (_, c) = last-Joined n ps y rs c

Chain-swapped :
    (n : ℕ → ℕ) (ps ps' : ℕ → Producer) (a i t : ℕ) (q : List ℕ)
    → t ≡ last q
    → ((j x y : ℕ) → ps j ≡ linking x y → ps' j ≡ linking x y)
    → ps' i ≡ linking t a
    → n a ≡ 0
    → Chain n ps q
    → Chain n ps' (q ++ a ∷ [])
Chain-swapped n ps ps' a i t [] l k e z c = (inl z, tt)
Chain-swapped n ps ps' a i t (x ∷ rs) l k e z c =
    Chain-snoc n ps ps' a x i rs k (e ∙ ap (λ t. linking t a) l) z c

Owner-nonzero : (s : System) (p b : ℕ) → Owner s (linking p b) → b ≢ 0
Owner-nonzero s p b (inl o) = o.2
Owner-nonzero s p b (inr (_, _, f)) = Follows-nonzero p b s.queued f

Front-nothing :
    (s : System) (c : Consumer)
    → Front s c
    → first s.queued ≡ 0
    → s.queued ≡ []
    → (s.head ≡ 0) × (s.shadow_head ≡ 0) × AtRest c
Front-nothing s Consumer.resting h f e = let (x, y) = subst (Place s) e h in (y, x, tt)
Front-nothing s Consumer.testing (h, _) f e = let (x, y) = subst (Place s) e h in (y, x, tt)
Front-nothing s Consumer.copying (_, h, z) f e = absurd (z (h ∙ f))
Front-nothing s Consumer.resetting (h, _, z) f e = absurd (z (h ∙ f))
Front-nothing s (Consumer.loading x) (_, _, h, z) f e = absurd (z (sym h ∙ f))
Front-nothing s (Consumer.swinging x) (_, _, h, z) f e = absurd (z (sym h ∙ f))
Front-nothing s (Consumer.waiting x) (_, _, h, z, _) f e = absurd (z (sym h ∙ f))
Front-nothing s (Consumer.copying_next x) (_, h, z, _) f e = absurd (z (sym h ∙ f))
Front-nothing s (Consumer.ending x) (h, _) f e = let (x, y) = subst (Place s) e h in (y, x, tt)

module _ (s : System) (a : ℕ) where
  abbrev with_last : List ℕ → System
  with_last q = record s { queued = q ++ a ∷ [] }

  Owner-behind : (q : Producer) → (Owns q a → ⊥) → Owner s q → Owner (with_last s.queued) q
  Owner-behind idle d o = tt
  Owner-behind (clearing b) d (z, m, k) = (z, NotIn-snoc b s.queued a m d, k)
  Owner-behind (swapping b) d (z, m, k, e) = (z, NotIn-snoc b s.queued a m d, k, e)
  Owner-behind (linking r b) d (inl (e, f, z, x, y, t)) =
      inl (e, first-snoc b a s.queued f z, z, x, y, t)
  Owner-behind (linking r b) d (inr (z, e, f)) = inr (z, e, Follows-snoc r b a s.queued f)

  Owner-entered :
      (q : List ℕ)
      → s.queued ≡ q
      → a ≢ 0
      → ((i : ℕ) → Owner s (s.producers i))
      → Front s s.consumer
      → Valid q
      → s.tail ≡ last q
      → Chain s.next s.producers q
      → Owner (with_last q) (linking s.tail a)
  Owner-entered [] e z os h v t c =
      let (hz, sz, r) = Front-nothing s s.consumer h (ap first e) e in inl (t, refl, z, hz, sz, r)
  Owner-entered (x ∷ rs) e z os h v t c =
      let free : s.next (last (x ∷ rs)) ≡ 0 = elim (last-Joined s.next s.producers x rs c) [
        | inl f ↦ f
        | inr (j, f) ↦ absurd (Owner-nonzero s (last (x ∷ rs)) 0 (subst (Owner s) f (os j)) refl)
      ] in
      inr (
        (λ k. last-nonzero x rs v (sym t ∙ k)),
        ap s.next t ∙ free,
        subst (λ l. Follows l a (x ∷ (rs ++ a ∷ []))) (sym t) (Follows-last x a rs z),
      )

  module _ (i : ℕ) (ps : ℕ → Producer) (here : ps i ≡ linking s.tail a)
      (keep : (j x y : ℕ) → s.producers j ≡ linking x y → ps j ≡ linking x y) where
    abbrev changed : System
    changed = record s { producers = ps; queued = s.queued ++ a ∷ [] }

    Place-entered : (q : List ℕ) → s.tail ≡ last q → Place s q → Place changed (q ++ a ∷ [])
    Place-entered [] t (x, y) = inr (inr (x, y, i, here ∙ ap (λ t. linking t a) t))
    Place-entered (x ∷ rs) t (inl h) = inl h
    Place-entered (x ∷ rs) t (inr (inl h)) = inr (inl h)
    Place-entered (x ∷ rs) t (inr (inr (y, h, j, e))) = inr (inr (y, h, j, keep j 0 x e))

    behind : (e : ℕ) → first s.queued ≡ e → e ≢ 0 → first (s.queued ++ a ∷ []) ≡ e
    behind e f z = sym (first-snoc e a s.queued (sym f) z)

    Front-entered :
        (c : Consumer) → s.tail ≡ last s.queued → NotIn a (held c) → Front s c → Front changed c
    Front-entered Consumer.resting t m h = Place-entered s.queued t h
    Front-entered Consumer.testing t m (h, z) = (Place-entered s.queued t h, z)
    Front-entered Consumer.copying t m (x, h, z) = (x, first-snoc s.head a s.queued h z, z)
    Front-entered Consumer.resetting t m (h, x, z) = (first-snoc s.shadow_head a s.queued h z, x, z)
    Front-entered (Consumer.loading e) t m (x, y, f, z) = (x, y, behind e f z, z)
    Front-entered (Consumer.swinging e) t m (x, y, f, z) = (x, y, behind e f z, z)
    Front-entered (Consumer.waiting e) t m (x, y, f, z, w) =
        (x, y, behind e f z, z, second-snoc a s.queued w)
    Front-entered (Consumer.copying_next e) t m (y, f, z, n) = (y, behind e f z, z, n)
    Front-entered (Consumer.ending e) t m (h, k) =
        (Place-entered s.queued t h, NotIn-snoc e s.queued a k (λ d. m.0 (sym d)))

  pub swap-Inv : (i : ℕ) → s.producers i ≡ swapping a → Inv s → Inv (produce_at (swapping a) i s)
  unfolding produce_at
  swap-Inv i e h =
      let o : Owner s (swapping a) = subst (Owner s) e (h.owners i) in
      let ps = set_producer s.producers i (linking s.tail a) in
      let keep : (j x y : ℕ) → s.producers j ≡ linking x y → ps j ≡ linking x y =
        λ j x y f. kept_at s.producers i j (linking s.tail a) (linking x y) (λ g. cc) f in
      let here : ps i ≡ linking s.tail a = set_producer-here s.producers i (linking s.tail a) in
      record {
        history =
            ap (λ l. l ++ a ∷ []) h.history
            ∙ append_assoc s.returned (held s.consumer ++ s.queued) (a ∷ [])
            ∙ ap (λ l. s.returned ++ l) (append_assoc (held s.consumer) s.queued (a ∷ []));
        valid = Valid-snoc a s.queued o.0 o.1 h.valid;
        tail = sym (last-snoc s.queued a);
        chain =
            Chain-swapped s.next s.producers ps a i s.tail s.queued h.tail keep here o.3 h.chain;
        owners =
            each-Owner s.producers i (linking s.tail a) (produce_at (swapping a) i s)
              (Owner-entered s.queued refl o.0 h.owners h.front h.valid h.tail h.chain)
              λ j d.
                Owner-behind (s.producers j)
                  (λ w. d (h.unique i j a (subst (λ q. Owns q a) (sym e) refl) w)) (h.owners j);
        unique =
            Unique-kept s.producers i (linking s.tail a) (λ c z. subst (λ p. Owns p c) (sym e) z)
              h.unique;
        front = Front-entered i ps here keep s.consumer h.tail o.2 h.front;
      }
