-- ===== src/Queue/Dequeue.antt =====
-- `dequeue` on the list that the queue holds.
use open_pa.Base.{sym, ap, ◌∙◌, ℕ, ◌≡◌, some, List, [], ◌∷◌, arith, refl, inl}
use open_pa.Shm.{rel_to_abs}
use open_pa.Queue.{State, update, dequeue}
use open_pa.Queue.Runs.{dequeue-more, dequeue-last}
use open_pa.Queue.Shape.{link, Holds, IsLinked-frame, link-update}
use open_pa.Queue.Ops.{Ends, ends, Ready, SameElements, kept}

cleared :
    (s : State) {r : ℕ}
    → s.shadow_head ≡ r
    → update s.next (rel_to_abs s.base s.shadow_head) 0 (rel_to_abs s.base r) ≡ some 0
cleared s e = rw e (ground arith)

-- On a ready queue that holds `r` in front of `rs`: `dequeue`, whatever its fuel, ends with the
-- absolute address of `r`, the queue holds `rs`, the link of `r` is null, and the base and the set
-- of elements stay.
pub dequeue-cons :
    (fuel : ℕ) (s : State) (r : ℕ) (rs : List ℕ)
    → Ready s (r ∷ rs)
    → Ends
        (λ e s'.
          (e ≡ rel_to_abs s.base r)
          × Holds s' rs
          × (link s' r ≡ some 0)
          × (s'.base ≡ s.base)
          × SameElements s s')
        (dequeue fuel s)
dequeue-cons fuel s r [] y =
    rw (dequeue-last s fuel (rw y.shadow y.holds.linked.0) (y.holds.tail ∙ sym y.shadow)) (
      ends (
        ap (rel_to_abs s.base) y.shadow,
        record {
          based = y.holds.based;
          linked = tt;
          valid = tt;
          tail = refl;
          front = (refl, y.head);
        },
        cleared s y.shadow,
        refl,
        λ p. kept s (rel_to_abs s.base s.shadow_head) 0 0 p (rw y.shadow y.holds.linked.0),
      ))
dequeue-cons fuel s r (q ∷ rs) y =
    rw (dequeue-more s fuel q (rw y.shadow y.holds.linked.0) y.holds.valid.3.0) (
      ends (
        ap (rel_to_abs s.base) y.shadow,
        record {
          based = y.holds.based;
          linked =
              IsLinked-frame (link s) _ (q ∷ rs) r 0
                (λ x k. rw y.shadow (link-update s r 0 x y.holds.based y.holds.valid.1 k))
                y.holds.valid.3 y.holds.valid.2 y.holds.linked.1;
          valid = y.holds.valid.3;
          tail = y.holds.tail;
          front = inl (refl, y.head);
        },
        cleared s y.shadow,
        refl,
        λ p. kept s (rel_to_abs s.base s.shadow_head) 0 q p (rw y.shadow y.holds.linked.0),
      ))
