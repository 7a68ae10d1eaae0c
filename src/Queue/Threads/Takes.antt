-- ===== src/Queue/Threads/Takes.antt =====
-- The accesses of the consumer keep the invariant.
use open_pa.Base.{ℕ, ◌≡◌, ◌≢◌, List, [], ◌∷◌, ◌++◌, ◌⊎◌, inl, inr, refl, sym, ap, ◌∙◌, subst}
use open_pa.Queue.Shape.{NotIn, first, last}
use open_pa.Queue.Threads.{
  Producer, Consumer, System, idle, clearing, swapping, linking, held, behind_first, ending,
}
use open_pa.Queue.Threads.Invariant.{
  Inv, Owner, Front, Place, Chain, Joined, Valid, Follows, AtRest,
}

-- The consumer and the two heads change; the queue stays.
Owner-moved :
    (s : System) (h k : ℕ) (c : Consumer) (p : Producer)
    → held c ≡ held s.consumer
    → ((s.head ≡ 0)
        → (s.shadow_head ≡ 0)
        → AtRest s.consumer
        → (first s.queued ≢ 0)
        → (h ≡ 0) × (k ≡ 0) × AtRest c)
    → Owner s p
    → Owner (record s { head = h; shadow_head = k; consumer = c }) p
Owner-moved s h k c idle e r o = tt
Owner-moved s h k c (clearing b) e r (z, m, n) = (z, m, subst (NotIn b) (sym e) n)
Owner-moved s h k c (swapping b) e r (z, m, n, f) = (z, m, subst (NotIn b) (sym e) n, f)
Owner-moved s h k c (linking p b) e r (inl (z, f, n, x, y, t)) =
    let (x', y', t') = r x y t (λ g. n (f ∙ g)) in inl (z, f, n, x', y', t')
Owner-moved s h k c (linking p b) e r (inr o) = inr o

-- An access that only moves the consumer.
pub moved :
    (s : System) (h k : ℕ) (c : Consumer)
    → held c ≡ held s.consumer
    → ((s.head ≡ 0)
        → (s.shadow_head ≡ 0)
        → AtRest s.consumer
        → (first s.queued ≢ 0)
        → (h ≡ 0) × (k ≡ 0) × AtRest c)
    → Front (record s { head = h; shadow_head = k; consumer = c }) c
    → Inv s
    → Inv (record s { head = h; shadow_head = k; consumer = c })
moved s h k c e r f i = record {
  history = i.history ∙ ap (λ l. s.returned ++ (l ++ s.queued)) (sym e);
  valid = i.valid;
  tail = i.tail;
  chain = i.chain;
  owners = λ j. Owner-moved s h k c (s.producers j) e r (i.owners j);
  unique = i.unique;
  front = f;
}

behind-cons : (e : ℕ) (q : List ℕ) → first q ≡ e → e ≢ 0 → e ∷ behind_first q ≡ q
behind-cons e [] f z = absurd (z (sym f))
behind-cons e (x ∷ rs) f z = ap (λ x. x ∷ rs) (sym f)

Valid-behind : (q : List ℕ) → Valid q → Valid (behind_first q)
Valid-behind [] v = tt
Valid-behind (x ∷ rs) (_, _, v) = v

first-NotIn-behind : (q : List ℕ) → Valid q → NotIn (first q) (behind_first q)
first-NotIn-behind [] v = tt
first-NotIn-behind (x ∷ rs) (_, m, _) = m

Chain-behind :
    (n : ℕ → ℕ) (ps : ℕ → Producer) (q : List ℕ) → Chain n ps q → Chain n ps (behind_first q)
Chain-behind n ps [] c = tt
Chain-behind n ps (x ∷ rs) (_, c) = c

pub NotIn-behind : (b : ℕ) (q : List ℕ) → NotIn b q → NotIn b (behind_first q)
NotIn-behind b [] m = tt
NotIn-behind b (x ∷ rs) (_, m) = m

pub NotIn-first : (b : ℕ) (q : List ℕ) → b ≢ 0 → NotIn b q → b ≢ first q
NotIn-first b [] z m = z
NotIn-first b (x ∷ rs) z (d, _) = d

Follows-behind :
    (r b : ℕ) (q : List ℕ)
    → Follows r b q
    → ((first q ≡ r) × (b ≡ first (behind_first q)) × (b ≢ 0)) ⊎ Follows r b (behind_first q)
Follows-behind r b [] f = absurd f
Follows-behind r b (x ∷ rs) f = f

pub Joined-first :
    (n : ℕ → ℕ) (ps : ℕ → Producer) (q : List ℕ)
    → first q ≢ 0
    → Chain n ps q
    → Joined n ps (first q) (first (behind_first q))
Joined-first n ps [] z c = absurd (z refl)
Joined-first n ps (x ∷ rs) z (j, _) = j

pub last-behind : (q : List ℕ) → first (behind_first q) ≢ 0 → last q ≡ last (behind_first q)
last-behind [] z = refl
last-behind (x ∷ []) z = absurd (z refl)
last-behind (x ∷ y ∷ rs) z = refl

pub last-first : (q : List ℕ) → Valid q → last q ≡ first q → behind_first q ≡ []
last-first [] v e = refl
last-first (x ∷ []) v e = refl
last-first (x ∷ y ∷ rs) (_, m, _) e = absurd (last_other x y rs m e)
  where
    last_other : (x y : ℕ) (rs : List ℕ) → NotIn x (y ∷ rs) → last (y ∷ rs) ≢ x
    last_other x y [] (d, _) e = d (sym e)
    last_other x y (z ∷ rs) (_, m) e = last_other x z rs m e

-- The consumer takes the first element out of the queue, to return it.
module _ (s : System) (e : ℕ) (f : first s.queued ≡ e) (z : e ≢ 0) (empty : held s.consumer ≡ [])
    (busy : AtRest s.consumer → ⊥) (t k : ℕ)
    (last_link : (b : ℕ) → s.next e ≡ 0 → b ≡ first (behind_first s.queued) → b ≢ 0 → ⊥) where
  abbrev taken : System
  taken = record s {
    tail = t;
    shadow_head = k;
    consumer = ending e;
    queued = behind_first s.queued;
  }

  Owner-taken : (p : Producer) → Owner s p → Owner taken p
  Owner-taken idle o = tt
  Owner-taken (clearing b) (y, m, _) =
      (y, NotIn-behind b s.queued m, (λ d. NotIn-first b s.queued y m (d ∙ sym f), tt))
  Owner-taken (swapping b) (y, m, _, n) =
      (y, NotIn-behind b s.queued m, (λ d. NotIn-first b s.queued y m (d ∙ sym f), tt), n)
  Owner-taken (linking r b) (inl (_, _, _, _, _, x)) = absurd (busy x)
  Owner-taken (linking r b) (inr (y, n, g)) = elim (Follows-behind r b s.queued g) [
    | inl (d, l, w) ↦ absurd (last_link b (ap s.next (sym f ∙ d) ∙ n) l w)
    | inr l ↦ inr (y, n, l)
  ]

  pub take-Inv :
      Inv s → t ≡ last (behind_first s.queued) → Place taken (behind_first s.queued) → Inv taken
  take-Inv h l p = record {
    history =
        h.history
        ∙ ap (λ l. s.returned ++ (l ++ s.queued)) empty
        ∙ ap (λ l. s.returned ++ l) (sym (behind-cons e s.queued f z));
    valid = Valid-behind s.queued h.valid;
    tail = l;
    chain = Chain-behind s.next s.producers s.queued h.chain;
    owners = λ j. Owner-taken (s.producers j) (h.owners j);
    unique = h.unique;
    front =
        (p, subst (λ e. NotIn e (behind_first s.queued)) f (first-NotIn-behind s.queued h.valid));
  }
