-- ===== src/Queue/Delayed/Consumer.antt =====
-- The consumer reads here what it reads in Queue.Threads.
use open_pa.Base.{sym, ap, ◌∙◌, subst, ◌==◌, if◌then◌else◌, Bool-cases, refl, ℕ, ◌≡◌, ◌≢◌, inl, inr}
use open_pa.Queue.Shape.{first}
use open_pa.Queue.Threads
use open_pa.Queue.Threads.{
  set_link, Producer, Consumer, resting, testing, copying, resetting, loading, swinging, waiting,
  copying_next, ending, consume, consume_at,
}
use open_pa.Queue.Threads.Invariant.{Inv, Front}
use open_pa.Queue.Threads.Takes.{NotIn-behind, NotIn-first}
use open_pa.Queue.Delayed.Invariant.{Local, view, Kept, over, Sim}
use open_pa.Queue.Delayed.Frames.{Local-Extends, Has-kept}
use open_pa.Queue.Delayed.{set_shared, held, System}

-- The links after the consumer's access.
abbrev reset : Consumer → (ℕ → ℕ) → ℕ → ℕ
reset (ending e) n = set_link n e 0
reset _ n = n

-- The link that the consumer reads is the same.
abbrev Reads : Consumer → (n m : ℕ → ℕ) → Type 0
Reads (loading e) n m = n e ≡ m e
Reads (waiting e) n m = n e ≡ m e
Reads (copying_next e) n m = n e ≡ m e
Reads _ n m = Unit

consume_at-over :
    (c : Consumer) (s : Threads.System) (n : ℕ → ℕ) (ps : ℕ → Producer)
    → Reads c n s.next
    → consume_at c (over s n ps) ≡ over (consume_at c s) (reset c n) ps
unfolding consume_at
consume_at-over resting s n ps r = refl
consume_at-over testing s n ps r = elim (Bool-cases (s.head == 0)) [
  | inl e ↦ rw e refl
  | inr e ↦ rw e refl
]
consume_at-over copying s n ps r = refl
consume_at-over resetting s n ps r = refl
consume_at-over (loading e) s n ps r =
    rw r (elim (Bool-cases (s.next e == 0)) [ inl e ↦ rw e refl | inr e ↦ rw e refl ])
consume_at-over (swinging e) s n ps r = elim (Bool-cases (s.tail == e)) [
  | inl e ↦ rw e refl
  | inr e ↦ rw e refl
]
consume_at-over (waiting e) s n ps r =
    rw r (elim (Bool-cases (s.next e == 0)) [ inl e ↦ rw e refl | inr e ↦ rw e refl ])
consume_at-over (copying_next e) s n ps r = rw r refl
consume_at-over (ending e) s n ps r = refl

-- What the consumer leaves to the producers.
abbrev Leaves : Consumer → (s u : Threads.System) → Type 0
Leaves c s u =
    (u.producers ≡ s.producers) × (u.next ≡ reset c s.next) × ((a : ℕ) → Kept s a → Kept u a)

consume_at-Leaves :
    (c : Consumer) (s : Threads.System)
    → held s.consumer ≡ held c
    → Front s c
    → Leaves c s (consume_at c s)
unfolding consume_at
consume_at-Leaves resting s h f = (refl, refl, λ a k. k)
consume_at-Leaves testing s h f = elim (Bool-cases (s.head == 0)) [
  | inl e ↦ rw e (refl, refl, λ a (z, m, n, o). (z, m, tt, o))
  | inr e ↦ rw e (refl, refl, λ a (z, m, n, o). (z, m, tt, o))
]
consume_at-Leaves copying s h f = (refl, refl, λ a (z, m, n, o). (z, m, tt, o))
consume_at-Leaves resetting s h f = (refl, refl, λ a (z, m, n, o). (z, m, tt, o))
consume_at-Leaves (loading e) s h f = elim (Bool-cases (s.next e == 0)) [
  | inl e ↦ rw e (refl, refl, λ a (z, m, n, o). (z, m, tt, o))
  | inr e ↦ rw e (refl, refl, λ a (z, m, n, o). (z, m, tt, o))
]
consume_at-Leaves (swinging e) s h (_, _, f, _) = elim (Bool-cases (s.tail == e)) [
  | inl b ↦ rw b (
    refl,
    refl,
    λ a (z, m, n, o).
        (z, NotIn-behind a s.queued m, ((λ d. NotIn-first a s.queued z m (d ∙ sym f)), tt), o),
  )
  | inr b ↦ rw b (refl, refl, λ a (z, m, n, o). (z, m, tt, o))
]
consume_at-Leaves (waiting e) s h f = elim (Bool-cases (s.next e == 0)) [
  | inl e ↦ rw e (refl, refl, λ a k. k)
  | inr e ↦ rw e (refl, refl, λ a (z, m, n, o). (z, m, tt, o))
]
consume_at-Leaves (copying_next e) s h (_, f, _, _) = (
  refl,
  refl,
  λ a (z, m, n, o).
      (z, NotIn-behind a s.queued m, ((λ d. NotIn-first a s.queued z m (d ∙ sym f)), tt), o),
)
consume_at-Leaves (ending e) s h f = (refl, refl, λ a (z, m, n, o). (z, m, tt, o))

module _ (t : System) (s : Threads.System) (h : Sim t s) where
  -- An element in the queue has no producer before its barrier.
  pub first-next : (e : ℕ) → first s.queued ≡ e → e ≢ 0 → t.shared.next e ≡ s.next e
  first-next e f z = elim (h.next e) [
    | inl k ↦ k
    | inr (j, m) ↦ absurd (
        NotIn-first e s.queued z
          (Has-kept (view t s) (t.writers j) (t.buffers j) (s.producers j) e (h.local j).stage m).1
          (sym f))
  ]

  Front-Reads : (c : Consumer) → Front s c → Reads c t.shared.next s.next
  Front-Reads resting f = tt
  Front-Reads testing f = tt
  Front-Reads copying f = tt
  Front-Reads resetting f = tt
  Front-Reads (loading e) (_, _, f, z) = first-next e f z
  Front-Reads (swinging e) f = tt
  Front-Reads (waiting e) (_, _, f, z, _) = first-next e f z
  Front-Reads (copying_next e) (_, f, z, _) = first-next e f z
  Front-Reads (ending e) f = tt

  reset-same : (c : Consumer) (n m : ℕ → ℕ) (a : ℕ) → n a ≡ m a → reset c n a ≡ reset c m a
  reset-same (ending e) n m a k = elim (Bool-cases (e == a)) [ inl d ↦ rw d refl | inr d ↦ rw d k ]
  reset-same _ n m a k = k

  reset-null : (c : Consumer) (n : ℕ → ℕ) (a : ℕ) → n a ≡ 0 → reset c n a ≡ 0
  reset-null (ending e) n a k = elim (Bool-cases (e == a)) [ inl d ↦ rw d refl | inr d ↦ rw d k ]
  reset-null _ n a k = k

  moved-Sim :
      (c : Consumer) (u : Threads.System)
      → Leaves c s u
      → Sim (set_shared t (over u (reset c t.shared.next) t.shared.producers)) u
  moved-Sim c u (e, f, g) = record {
    same = refl;
    next = λ p. elim (h.next p) [
      | inl k ↦ inl (reset-same c t.shared.next s.next p k ∙ ap (λ n. n p) (sym f))
      | inr k ↦ inr k
    ];
    contents = h.contents;
    unique = h.unique;
    local = λ j.
        subst
          (Local (view (set_shared t (over u (reset c t.shared.next) t.shared.producers)) u)
            (t.writers j) (t.buffers j))
          (ap (λ ps. ps j) (sym e))
          (Local-Extends (view t s) _ (t.writers j) (t.buffers j) (s.producers j)
            (λ a _. record {
              kept = g a;
              given = refl;
              contents = λ k. k;
              next = reset-null c t.shared.next a;
            })
            (h.local j));
  }

  pub consume-Sim : Inv s → Sim (set_shared t (consume t.shared)) (consume s)
  unfolding consume
  consume-Sim v =
      subst (λ u. Sim (set_shared t u) (consume s))
        (sym (
          ap consume h.same
          ∙ consume_at-over s.consumer s t.shared.next t.shared.producers
              (Front-Reads s.consumer v.front)))
        (moved-Sim s.consumer (consume s) (consume_at-Leaves s.consumer s refl v.front))

  abbrev begin_is_empty : Threads.System → Threads.System
  begin_is_empty s = if s.shadow_head == 0 then record s { consumer = testing } else s

  abbrev begin_dequeue : Threads.System → Threads.System
  begin_dequeue s = record s { consumer = loading s.shadow_head }

  pub begin_is_empty-Sim : Sim (set_shared t (begin_is_empty t.shared)) (begin_is_empty s)
  begin_is_empty-Sim =
      subst (λ u. Sim (set_shared t u) (begin_is_empty s)) (sym (ap begin_is_empty h.same))
        (elim (Bool-cases (s.shadow_head == 0)) [
          | inl b ↦ rw b (moved-Sim resting _ (refl, refl, λ a (z, m, n, o). (z, m, tt, o)))
          | inr b ↦ rw b (moved-Sim resting s (refl, refl, λ a k. k))
        ])

  pub begin_dequeue-Sim : Sim (set_shared t (begin_dequeue t.shared)) (begin_dequeue s)
  begin_dequeue-Sim =
      subst (λ u. Sim (set_shared t u) (begin_dequeue s)) (sym (ap begin_dequeue h.same))
        (moved-Sim resting _ (refl, refl, λ a (z, m, n, o). (z, m, tt, o)))
