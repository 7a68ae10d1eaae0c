-- ===== src/Queue/Threads/Owners.antt =====
-- What the accesses of a producer leave as it was.
use open_pa.Base.{ℕ, ◌≡◌, ◌≢◌, ◌==◌, Bool-cases, List, [], ◌∷◌, inl, inr, arith, subst}
use open_pa.Queue.Shape.{NotIn, first}
use open_pa.Queue.Threads.{
  Producer, Consumer, System, idle, clearing, swapping, linking, set_link, set_producer, Owns,
}
use open_pa.Queue.Threads.Invariant.{Owner, Front, Place}

module _ (ps : ℕ → Producer) (i : ℕ) (p' : Producer) where
  Owns-before :
      ((b : ℕ) → Owns p' b → Owns (ps i) b)
      → (j b : ℕ) → Owns (set_producer ps i p' j) b
      → Owns (ps j) b
  Owns-before k j b = elim (Bool-cases (i == j)) [
    | inl h ↦ rw h (λ o. subst (λ x. Owns (ps x) b) (ground (arith, h)) (k b o))
    | inr h ↦ rw h (λ o. o)
  ]

  pub each-Owner :
      (s : System)
      → Owner s p'
      → ((j : ℕ) → (i ≡ j → ⊥) → Owner s (ps j))
      → (j : ℕ) → Owner s (set_producer ps i p' j)
  each-Owner s o k j = elim (Bool-cases (i == j)) [
    | inl h ↦ rw h o
    | inr h ↦ rw h (k j (ground (arith, h)))
  ]

pub set_producer-here : (ps : ℕ → Producer) (i : ℕ) (p : Producer) → set_producer ps i p i ≡ p
set_producer-here ps i p = ground arith

-- A link is reset.
pub Owner-zeroed :
    (s : System) (a : ℕ) (ps : ℕ → Producer) (p : Producer)
    → Owner s p
    → Owner (record s { next = set_link s.next a 0; producers = ps }) p
Owner-zeroed s a ps idle o = tt
Owner-zeroed s a ps (clearing b) o = o
Owner-zeroed s a ps (swapping b) (z, m, k, e) = (z, m, k, ground (arith, e))
Owner-zeroed s a ps (linking p b) (inl o) = inl o
Owner-zeroed s a ps (linking p b) (inr (z, e, f)) = inr (z, ground (arith, e), f)

pub first-NotIn : (a e : ℕ) (q : List ℕ) → NotIn a q → first q ≡ e → e ≢ 0 → e ≢ a
first-NotIn a e [] m f z = ground arith
first-NotIn a e (x ∷ rs) (m, _) f z = ground arith

pub zeroed_elsewhere : (n : ℕ → ℕ) (a e : ℕ) → e ≢ a → n e ≢ 0 → set_link n a 0 e ≢ 0
zeroed_elsewhere n a e d z = ground arith

pub linked_nonzero : (n : ℕ → ℕ) (p a e : ℕ) → a ≢ 0 → n e ≢ 0 → set_link n p a e ≢ 0
linked_nonzero n p a e d z = ground arith

pub same_prev : {x y p a : ℕ} → linking x y ≡ linking p a → x ≡ p
same_prev e = cc

-- No two producers have the same element.
abbrev pub Unique : (ℕ → Producer) → Type 0
Unique ps = (i j a : ℕ) → Owns (ps i) a → Owns (ps j) a → i ≡ j

pub Unique-kept :
    (ps : ℕ → Producer) (i : ℕ) (p' : Producer)
    → ((b : ℕ) → Owns p' b → Owns (ps i) b)
    → Unique ps
    → Unique (set_producer ps i p')
Unique-kept ps i p' k u j l b x y =
    u j l b (Owns-before ps i p' k j b x) (Owns-before ps i p' k l b y)

module _ (s : System) where
  -- Places and fronts stay when links to the queue's first element stay with their producers.
  pub Place-kept :
      (n : ℕ → ℕ) (ps : ℕ → Producer) (q : List ℕ)
      → ((j y : ℕ) → s.producers j ≡ linking 0 y → ps j ≡ linking 0 y)
      → Place s q
      → Place (record s { next = n; producers = ps }) q
  Place-kept n ps [] k h = h
  Place-kept n ps (x ∷ rs) k (inl h) = inl h
  Place-kept n ps (x ∷ rs) k (inr (inl h)) = inr (inl h)
  Place-kept n ps (x ∷ rs) k (inr (inr (z, h, j, e))) = inr (inr (z, h, j, k j x e))

  pub Front-kept :
      (n : ℕ → ℕ) (ps : ℕ → Producer) (c : Consumer)
      → ((j y : ℕ) → s.producers j ≡ linking 0 y → ps j ≡ linking 0 y)
      → ((e : ℕ) → first s.queued ≡ e → e ≢ 0 → s.next e ≢ 0 → n e ≢ 0)
      → Front s c
      → Front (record s { next = n; producers = ps }) c
  Front-kept n ps Consumer.resting k l h = Place-kept n ps s.queued k h
  Front-kept n ps Consumer.testing k l (h, z) = (Place-kept n ps s.queued k h, z)
  Front-kept n ps Consumer.copying k l h = h
  Front-kept n ps Consumer.resetting k l h = h
  Front-kept n ps (Consumer.loading e) k l h = h
  Front-kept n ps (Consumer.swinging e) k l h = h
  Front-kept n ps (Consumer.waiting e) k l h = h
  Front-kept n ps (Consumer.copying_next e) k l (h, f, z, t) = (h, f, z, l e f z t)
  Front-kept n ps (Consumer.ending e) k l (h, m) = (Place-kept n ps s.queued k h, m)
