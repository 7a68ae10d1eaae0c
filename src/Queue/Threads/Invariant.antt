-- ===== src/Queue/Threads/Invariant.antt =====
-- What holds of the queue between the accesses of its threads.
use open_pa.Base.{
  ℕ, ◌≡◌, ◌≢◌, ◌==◌, Bool-cases, List, [], ◌∷◌, ◌++◌, ◌⊎◌, inl, inr, arith, sym, ap, ◌∙◌,
}
use open_pa.Queue.Shape.{NotIn, first, last}
use open_pa.Queue.Threads.{
  behind_first, Producer, Consumer, System, idle, clearing, swapping, linking, resting, testing,
  copying, resetting, loading, swinging, waiting, copying_next, ending, set_link, set_producer,
  held, Owns,
}

-- Offsets that are not null, and no two the same.
abbrev pub Valid : List ℕ → Type 0
Valid [] = Unit
Valid (r ∷ rs) = (r ≢ 0) × NotIn r rs × Valid rs

-- The link leads on to `y`, or some producer is about to store that it does.
abbrev pub Joined : (ℕ → ℕ) → (ℕ → Producer) → ℕ → ℕ → Type 0
Joined n ps x y = (n x ≡ y) ⊎ ((i : ℕ) × (ps i ≡ linking x y))

abbrev pub Chain : (ℕ → ℕ) → (ℕ → Producer) → List ℕ → Type 0
Chain n ps [] = Unit
Chain n ps (x ∷ rs) = Joined n ps x (first rs) × Chain n ps rs

-- `a` comes next after `p`.
abbrev pub Follows : ℕ → ℕ → List ℕ → Type 0
Follows p a [] = ⊥
Follows p a (x ∷ rs) = ((x ≡ p) × (a ≡ first rs) × (a ≢ 0)) ⊎ Follows p a rs

-- The consumer does not rely on the head or the shadow head to hold an element.
abbrev pub AtRest : Consumer → Type 0
AtRest resting = Unit
AtRest testing = Unit
AtRest (ending e) = Unit
AtRest _ = ⊥

-- What holds for a producer. One that is about to set the head has its element first in the queue; one
-- that is about to set a link has its element behind that link's.
abbrev pub Owner : System → Producer → Type 0
Owner s idle = Unit
Owner s (clearing a) = (a ≢ 0) × NotIn a s.queued × NotIn a (held s.consumer)
Owner s (swapping a) = (a ≢ 0) × NotIn a s.queued × NotIn a (held s.consumer) × (s.next a ≡ 0)
Owner s (linking p a) =
    ((p ≡ 0)
      × (a ≡ first s.queued)
      × (a ≢ 0)
      × (s.head ≡ 0)
      × (s.shadow_head ≡ 0)
      × AtRest s.consumer)
    ⊎ ((p ≢ 0) × (s.next p ≡ 0) × Follows p a s.queued)

-- Where the first element is: in the shadow head, in the head, or in the hands of its producer.
abbrev pub Place : System → List ℕ → Type 0
Place s [] = (s.shadow_head ≡ 0) × (s.head ≡ 0)
Place s (r ∷ rs) =
    ((s.shadow_head ≡ r) × (s.head ≡ 0))
    ⊎ ((s.shadow_head ≡ 0) × (s.head ≡ r))
    ⊎ ((s.shadow_head ≡ 0) × (s.head ≡ 0) × (i : ℕ) × (s.producers i ≡ linking 0 r))

abbrev pub Front : System → Consumer → Type 0
Front s resting = Place s s.queued
Front s testing = Place s s.queued × (s.shadow_head ≡ 0)
Front s copying = (s.shadow_head ≡ 0) × (s.head ≡ first s.queued) × (s.head ≢ 0)
Front s resetting = (s.shadow_head ≡ first s.queued) × (s.head ≢ 0) × (s.shadow_head ≢ 0)
Front s (loading e) = (s.shadow_head ≡ e) × (s.head ≡ 0) × (first s.queued ≡ e) × (e ≢ 0)
Front s (swinging e) = (s.shadow_head ≡ 0) × (s.head ≡ 0) × (first s.queued ≡ e) × (e ≢ 0)
Front s (waiting e) =
    (s.shadow_head ≡ 0)
    × (s.head ≡ 0)
    × (first s.queued ≡ e)
    × (e ≢ 0)
    × (first (behind_first s.queued) ≢ 0)
Front s (copying_next e) = (s.head ≡ 0) × (first s.queued ≡ e) × (e ≢ 0) × (s.next e ≢ 0)
Front s (ending e) = Place s s.queued × NotIn e s.queued

pub record Inv (s : System) : Type 0 where
  pub history : s.entered ≡ s.returned ++ (held s.consumer ++ s.queued)
  pub valid : Valid s.queued
  pub tail : s.tail ≡ last s.queued
  pub chain : Chain s.next s.producers s.queued
  pub owners : (i : ℕ) → Owner s (s.producers i)
  pub unique : (i j a : ℕ) → Owns (s.producers i) a → Owns (s.producers j) a → i ≡ j
  pub front : Front s s.consumer

-- A producer other than the one that moves.
pub kept_at :
    (ps : ℕ → Producer) (i j : ℕ) (p q : Producer)
    → (ps i ≡ q → ⊥)
    → ps j ≡ q
    → set_producer ps i p j ≡ q
kept_at ps i j p q n e = elim (Bool-cases (i == j)) [
  | inl h ↦ absurd (n (ap ps (ground (arith, h)) ∙ e))
  | inr h ↦ rw h e
]

pub Chain-frame :
    (n : ℕ → ℕ) (ps ps' : ℕ → Producer) (a v : ℕ) (q : List ℕ)
    → NotIn a q
    → ((j x y : ℕ) → ps j ≡ linking x y → ps' j ≡ linking x y)
    → Chain n ps q
    → Chain (set_link n a v) ps' q
Chain-frame n ps ps' a v [] h k c = tt
Chain-frame n ps ps' a v (x ∷ rs) (m, h) k (inl e, c) =
    (inl (ground (arith, m, e)), Chain-frame n ps ps' a v rs h k c)
Chain-frame n ps ps' a v (x ∷ rs) (m, h) k (inr (i, e), c) =
    (inr (i, k i x (first rs) e), Chain-frame n ps ps' a v rs h k c)

pub Chain-producers :
    (n : ℕ → ℕ) (ps ps' : ℕ → Producer) (q : List ℕ)
    → Valid q
    → ((j x y : ℕ) → x ≢ 0 → ps j ≡ linking x y → ps' j ≡ linking x y)
    → Chain n ps q
    → Chain n ps' q
Chain-producers n ps ps' [] w k c = tt
Chain-producers n ps ps' (x ∷ rs) (z, _, w) k (inl e, c) =
    (inl e, Chain-producers n ps ps' rs w k c)
Chain-producers n ps ps' (x ∷ rs) (z, _, w) k (inr (i, e), c) =
    (inr (i, k i x (first rs) z e), Chain-producers n ps ps' rs w k c)

-- A new last element, whose producer is about to link it to the one before.
pub Chain-snoc :
    (n : ℕ → ℕ) (ps ps' : ℕ → Producer) (a x i : ℕ) (rs : List ℕ)
    → ((j x y : ℕ) → ps j ≡ linking x y → ps' j ≡ linking x y)
    → ps' i ≡ linking (last (x ∷ rs)) a
    → n a ≡ 0
    → Chain n ps (x ∷ rs)
    → Chain n ps' (x ∷ (rs ++ a ∷ []))
Chain-snoc n ps ps' a x i [] k e z c = (inr (i, e), (inl z, tt))
Chain-snoc n ps ps' a x i (y ∷ rs) k e z (inl f, c) = (inl f, Chain-snoc n ps ps' a y i rs k e z c)
Chain-snoc n ps ps' a x i (y ∷ rs) k e z (inr (j, f), c) =
    (inr (j, k j x y f), Chain-snoc n ps ps' a y i rs k e z c)

pub NotIn-Follows : (p a x : ℕ) (rs : List ℕ) → NotIn x rs → Follows p a rs → x ≢ p
NotIn-Follows p a x [] h f = absurd f
NotIn-Follows p a x (y ∷ rs) (m, h) (inl (e, _, _)) = λ d. m (d ∙ sym e)
NotIn-Follows p a x (y ∷ rs) (m, h) (inr f) = NotIn-Follows p a x rs h f

Follows-next :
    (p a : ℕ) (x : ℕ) (rs : List ℕ) → Valid (x ∷ rs) → Follows p a (x ∷ rs) → x ≡ p → a ≡ first rs
Follows-next p a x rs w (inl (e, f, _)) h = f
Follows-next p a x rs (_, m, w) (inr f) h = absurd (NotIn-Follows p a x rs m f h)

-- The store of a link that was waited for.
link_outside :
    (n : ℕ → ℕ) (ps ps' : ℕ → Producer) (p a : ℕ) (rs : List ℕ)
    → NotIn p rs
    → ((j x y : ℕ) → x ≢ p → ps j ≡ linking x y → ps' j ≡ linking x y)
    → Chain n ps rs
    → Chain (set_link n p a) ps' rs
link_outside n ps ps' p a [] m k c = tt
link_outside n ps ps' p a (x ∷ rs) (d, m) k (inl e, c) =
    (inl (ground (arith, d, e)), link_outside n ps ps' p a rs m k c)
link_outside n ps ps' p a (x ∷ rs) (d, m) k (inr (i, e), c) =
    (inr (i, k i x (first rs) (λ h. d (sym h)) e), link_outside n ps ps' p a rs m k c)

pub Chain-link :
    (n : ℕ → ℕ) (ps ps' : ℕ → Producer) (p a : ℕ) (rs : List ℕ)
    → Valid rs
    → Follows p a rs
    → ((j x y : ℕ) → x ≢ p → ps j ≡ linking x y → ps' j ≡ linking x y)
    → Chain n ps rs
    → Chain (set_link n p a) ps' rs
Chain-link n ps ps' p a [] w f k c = absurd f
Chain-link n ps ps' p a (x ∷ rs) (z, m, w) (inl (e, f, _)) k (_, c) =
    (inl (ground (arith, e, f)), link_outside n ps ps' p a rs (rw (sym e) m) k c)
Chain-link n ps ps' p a (x ∷ rs) (z, m, w) (inr f) k (inl e, c) =
    let d : x ≢ p = NotIn-Follows p a x rs m f in
    (inl (ground (arith, d, e)), Chain-link n ps ps' p a rs w f k c)
Chain-link n ps ps' p a (x ∷ rs) (z, m, w) (inr f) k (inr (i, e), c) =
    let d : x ≢ p = NotIn-Follows p a x rs m f in
    (inr (i, k i x (first rs) d e), Chain-link n ps ps' p a rs w f k c)

pub Follows-nonzero : (p a : ℕ) (rs : List ℕ) → Follows p a rs → a ≢ 0
Follows-nonzero p a [] f = absurd f
Follows-nonzero p a (x ∷ rs) (inl (_, _, z)) = z
Follows-nonzero p a (x ∷ rs) (inr f) = Follows-nonzero p a rs f

pub Follows-unique : (p a b : ℕ) (rs : List ℕ) → Valid rs → Follows p a rs → Follows p b rs → a ≡ b
Follows-unique p a b [] w f g = absurd f
Follows-unique p a b (x ∷ rs) w (inl (e, f, _)) (inl (d, g, _)) = f ∙ sym g
Follows-unique p a b (x ∷ rs) (_, m, w) (inl (e, f, _)) (inr g) =
    absurd (NotIn-Follows p b x rs m g e)
Follows-unique p a b (x ∷ rs) (_, m, w) (inr f) (inl (e, g, _)) =
    absurd (NotIn-Follows p a x rs m f e)
Follows-unique p a b (x ∷ rs) (_, m, w) (inr f) (inr g) = Follows-unique p a b rs w f g
