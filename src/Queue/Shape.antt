-- ===== src/Queue/Shape.antt =====
-- What it means that a queue in memory holds a list of elements, by their relative addresses.
use open_pa.Base.{
  sym, ℕ, ◌≡◌, ◌≢◌, ◌<◌, ◌==◌, if◌then◌else◌, Option, some, List, [], ◌∷◌, ◌++◌, ◌⊎◌, arith, refl,
}
use open_pa.Shm.{address_mod, rel_to_abs}
use open_pa.Shm.Address.{rel_to_abs-injective}
use open_pa.Queue.{State, update}

abbrev pub Links : Type 0
Links = ℕ → Option ℕ

-- The `next` field of the element at a relative address.
abbrev pub link : State → Links
link s r = s.next (rel_to_abs s.base r)

-- The first and the last of a list, or the null address.
abbrev pub first : List ℕ → ℕ
first [] = 0
first (r ∷ rs) = r

abbrev pub last : List ℕ → ℕ
last [] = 0
last (r ∷ []) = r
last (r ∷ q ∷ rs) = last (q ∷ rs)

-- Each element's link leads to the next one, and the last one's is null.
abbrev pub IsLinked : Links → List ℕ → Type 0
IsLinked l [] = Unit
IsLinked l (r ∷ rs) = (l r ≡ some (first rs)) × IsLinked l rs

abbrev pub NotIn : ℕ → List ℕ → Type 0
NotIn a [] = Unit
NotIn a (r ∷ rs) = (a ≢ r) × NotIn a rs

-- Relative addresses that are not null, and no two the same.
abbrev pub AllValid : List ℕ → Type 0
AllValid [] = Unit
AllValid (r ∷ rs) = (r ≢ 0) × (r < address_mod) × NotIn r rs × AllValid rs

-- The first element is where the consumer looks: in the shadow head, or else in the head.
abbrev pub Front : State → List ℕ → Type 0
Front s [] = (s.shadow_head ≡ 0) × (s.head ≡ 0)
Front s (r ∷ rs) = ((s.shadow_head ≡ r) × (s.head ≡ 0)) ⊎ ((s.shadow_head ≡ 0) × (s.head ≡ r))

-- The queue holds `rs`.
pub record Holds (s : State) (rs : List ℕ) : Type 0 where
  pub based : s.base < address_mod
  pub linked : IsLinked (link s) rs
  pub valid : AllValid rs
  pub tail : s.tail ≡ last rs
  pub front : Front s rs

last-NotIn : (x y : ℕ) (rs : List ℕ) → NotIn x (y ∷ rs) → last (y ∷ rs) ≢ x
last-NotIn x y [] h = ground arith
last-NotIn x y (z ∷ rs) h = last-NotIn x z rs h.1

-- A link that is set leads to the new value, and the other elements' links stay.
pub link-update :
    (s : State) (a v r : ℕ)
    → s.base < address_mod
    → a < address_mod
    → r < address_mod
    → update s.next (rel_to_abs s.base a) v (rel_to_abs s.base r)
      ≡ (if a == r then some v else link s r)
link-update s a v r b h k = ground (arith, rel_to_abs-injective s.base b a r h k)

abbrev pub relink : Links → ℕ → ℕ → Links
relink l a v r = if a == r then some v else l r

-- A change outside the list is not seen.
pub IsLinked-frame :
    (l l' : Links) (rs : List ℕ) (a v : ℕ)
    → ((r : ℕ) → r < address_mod → l' r ≡ relink l a v r)
    → AllValid rs
    → NotIn a rs
    → IsLinked l rs
    → IsLinked l' rs
IsLinked-frame l l' [] a v same valid out k = tt
IsLinked-frame l l' (r ∷ rs) a v same (_, small, _, valid) out k =
    (ground (arith, same r small), IsLinked-frame l l' rs a v same valid out.1 k.1)

-- Linking a new element behind the last one.
pub IsLinked-snoc :
    (l l' : Links) (x : ℕ) (rs : List ℕ) (a : ℕ)
    → ((r : ℕ) → r < address_mod → l' r ≡ relink (relink l a 0) (last (x ∷ rs)) a r)
    → a < address_mod
    → AllValid (x ∷ rs)
    → NotIn a (x ∷ rs)
    → IsLinked l (x ∷ rs)
    → IsLinked l' (x ∷ rs ++ a ∷ [])
IsLinked-snoc l l' x [] a same small valid out k =
    (ground (arith, same x valid.1), (ground (arith, same a small), tt))
IsLinked-snoc l l' x (y ∷ rs) a same small (ne, sx, nin, valid) out k = (
  ground (arith, same x sx, last-NotIn x y rs nin),
  IsLinked-snoc l l' y rs a same small valid out.1 k.1,
)

-- Facts about the last element.
pub last-link : (l : Links) (x : ℕ) (rs : List ℕ) → IsLinked l (x ∷ rs) → l (last (x ∷ rs)) ≡ some 0
last-link l x [] k = k.0
last-link l x (y ∷ rs) k = last-link l y rs k.1

pub last-valid :
    (x : ℕ) (rs : List ℕ) → AllValid (x ∷ rs) → (last (x ∷ rs) ≢ 0) × (last (x ∷ rs) < address_mod)
last-valid x [] v = (v.0, v.1)
last-valid x (y ∷ rs) v = last-valid y rs v.3

pub last-snoc : (rs : List ℕ) (a : ℕ) → last (rs ++ a ∷ []) ≡ a
last-snoc [] a = refl
last-snoc (x ∷ []) a = refl
last-snoc (x ∷ y ∷ rs) a = last-snoc (y ∷ rs) a

pub NotIn-snoc : (r : ℕ) (rs : List ℕ) (a : ℕ) → NotIn r rs → r ≢ a → NotIn r (rs ++ a ∷ [])
NotIn-snoc r [] a h n = (n, tt)
NotIn-snoc r (x ∷ rs) a h n = (h.0, NotIn-snoc r rs a h.1 n)

pub AllValid-snoc :
    (rs : List ℕ) (a : ℕ)
    → a ≢ 0
    → a < address_mod
    → NotIn a rs
    → AllValid rs
    → AllValid (rs ++ a ∷ [])
AllValid-snoc [] a n h out v = (n, h, tt, tt)
AllValid-snoc (x ∷ rs) a n h out (nx, hx, nin, v) =
    (nx, hx, NotIn-snoc x rs a nin (λ e. out.0 (sym e)), AllValid-snoc rs a n h out.1 v)

-- Two links set one after the other.
pub link-update-update :
    (s : State) (a v b u r : ℕ)
    → s.base < address_mod
    → a < address_mod
    → b < address_mod
    → r < address_mod
    → update (update s.next (rel_to_abs s.base a) v) (rel_to_abs s.base b) u (rel_to_abs s.base r)
      ≡ relink (relink (link s) a v) b u r
link-update-update s a v b u r base ha hb hr =
    ground (
      arith,
      rel_to_abs-injective s.base base a r ha hr,
      rel_to_abs-injective s.base base b r hb hr,
    )
