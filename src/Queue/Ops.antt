-- ===== src/Queue/Ops.antt =====
-- The operations of the queue on the list that it holds.
use open_pa.Base.{
  sym, ap, ◌∙◌, ℕ, ◌≡◌, ◌≢◌, ◌<◌, if◌then◌else◌, Option, none, some, List, [], ◌∷◌, ◌++◌, arith,
  refl, true, false, Bool, inl, inr,
}
use open_pa.Shm.{address_mod, rel_to_abs, abs_to_rel}
use open_pa.Shm.Address.{abs_to_rel-rel_to_abs}
use open_pa.Queue.{State, Run, ok, update, init, is_empty, peek_head, enqueue}
use open_pa.Queue.Runs.{
  enqueue-behind, is_empty-refill, is_empty-shadow, peek_head-shadow, peek_head-nothing,
  enqueue-first, is_empty-nothing,
}
use open_pa.Queue.Shape.{
  link-update-update, last-snoc, AllValid-snoc, last-link, last-valid, link, first, last, NotIn,
  Holds, IsLinked-snoc, link-update,
}

-- The run ends with these.
pub data Ends {A : Type 0} (P : A → State → Type 0) : Run A → Type 0 where
  ends : {a : A} {s : State} → P a s → Ends P (ok a s)

-- An initialised queue holds nothing.
pub init-Holds : (s : State) → s.base < address_mod → Ends (λ _ s'. Holds s' []) (init s)
unfolding init
init-Holds s b =
    ends (record { based = b; linked = tt; valid = tt; tail = refl; front = (refl, refl) })

abbrev pub is_nil : List ℕ → Bool
is_nil [] = true
is_nil (r ∷ rs) = false

-- After `is_empty` the first element is in the shadow head.
pub record Ready (s : State) (rs : List ℕ) : Type 0 where
  pub holds : Holds s rs
  pub shadow : s.shadow_head ≡ first rs
  pub head : s.head ≡ 0

-- On a queue that holds `rs`: `is_empty` ends and tells whether `rs` is empty, the queue still
-- holds `rs` and is ready, and the base and all links stay.
pub is_empty-Ready :
    (s : State) (rs : List ℕ)
    → Holds s rs
    → Ends
        (λ b s'. (b ≡ is_nil rs) × Ready s' rs × (s'.base ≡ s.base) × (s'.next ≡ s.next))
        (is_empty s)
is_empty-Ready s [] h =
    rw (is_empty-nothing s h.front.0 h.front.1)
      (ends (refl, record { holds = h; shadow = h.front.0; head = h.front.1 }, refl, refl))
is_empty-Ready s (r ∷ rs) h = elim h.front [
  | inl (e, z) ↦
      rw (is_empty-shadow s (ground arith))
        (ends (refl, record { holds = h; shadow = e; head = z }, refl, refl))
  | inr (z, e) ↦ rw (is_empty-refill s z (ground arith)) (
      ends (
        refl,
        record {
          holds = record {
            based = h.based;
            linked = h.linked;
            valid = h.valid;
            tail = h.tail;
            front = inl (e, refl);
          };
          shadow = e;
          head = refl;
        },
        refl,
        refl,
      ))
]

-- On a ready queue that holds `rs`: `peek_head` returns the absolute address of the first element,
-- or NULL if there is none, and changes nothing.
pub peek_head-first :
    (s : State) (rs : List ℕ)
    → Ready s rs
    → peek_head s ≡ ok (if is_nil rs then 0 else rel_to_abs s.base (first rs)) s
peek_head-first s [] r = peek_head-nothing s r.shadow
peek_head-first s (x ∷ rs) r =
    peek_head-shadow s (ground arith) ∙ ap (λ x. ok (rel_to_abs s.base x) s) r.shadow

abbrev pub is_some : Option ℕ → Bool
is_some none = false
is_some (some _) = true

-- An operation neither makes nor removes elements.
abbrev pub SameElements : State → State → Type 0
SameElements s s' = (p : ℕ) → is_some (s'.next p) ≡ is_some (s.next p)

pub kept :
    (s : State) (a v u p : ℕ)
    → s.next a ≡ some u
    → is_some (update s.next a v p) ≡ is_some (s.next p)
kept s a v u p e = ground arith

kept_both :
    (s : State) (a v u b w t p : ℕ)
    → s.next a ≡ some u
    → s.next b ≡ some t
    → is_some (update (update s.next a v) b w p) ≡ is_some (s.next p)
kept_both s a v u b w t p e f = ground arith

module _ (s : State) (a v : ℕ) (nonnull : a ≢ 0) (small : a < address_mod)
    (here : link s a ≡ some v) where
  elt_rel : s.base < address_mod → abs_to_rel s.base (rel_to_abs s.base a) ≡ a
  elt_rel b = abs_to_rel-rel_to_abs s.base b a small

  -- On a queue that holds `rs`, with an element at the relative address `a`, which is not null, in
  -- range and not in `rs`: `enqueue` ends, the queue holds `rs` with `a` behind it, and the base
  -- and the set of elements stay.
  pub enqueue-snoc :
      (rs : List ℕ)
      → Holds s rs
      → NotIn a rs
      → Ends
          (λ _ s'. Holds s' (rs ++ a ∷ []) × (s'.base ≡ s.base) × SameElements s s')
          (enqueue (rel_to_abs s.base a) s)
  enqueue-snoc [] h out =
      rw (enqueue-first s (rel_to_abs s.base a) v here h.tail, elt_rel h.based)
        (ends (
          record {
            based = h.based;
            linked = (ground (arith, link-update s a 0 a h.based small small), tt);
            valid = (nonnull, small, tt, tt);
            tail = refl;
            front = inr (h.front.0, refl);
          },
          refl,
          λ p. kept s (rel_to_abs s.base a) 0 v p here,
        ))
  enqueue-snoc (x ∷ rs) h out =
      rw
        (
          enqueue-behind s (rel_to_abs s.base a) v 0 here
              (ground (arith, h.tail, last-valid x rs h.valid))
              (rw h.tail (last-link (link s) x rs h.linked)),
          elt_rel h.based,
        )
        (ends (
          record {
            based = h.based;
            linked =
                IsLinked-snoc (link s) _ x rs a
                  (λ r k. rw h.tail (
                    link-update-update s a 0 (last (x ∷ rs)) a r h.based small
                      (last-valid x rs h.valid).1 k))
                  small h.valid out h.linked;
            valid = AllValid-snoc (x ∷ rs) a nonnull small out h.valid;
            tail = sym (last-snoc (x ∷ rs) a);
            front = h.front;
          },
          refl,
          λ p.
              kept_both s (rel_to_abs s.base a) 0 v (rel_to_abs s.base s.tail) a 0 p here
                (rw h.tail (last-link (link s) x rs h.linked)),
        ))
