-- ===== src/Queue/Resets/Ahead.antt =====
-- While a reset of the head waits, the queue is not empty, and no producer stores to the head.
use open_pa.Base.{
  sym, ◌∙◌, ap, some, Bool-cases, ◌⊎◌, subst, ℕ, ◌≡◌, ◌≢◌, ◌==◌, Bool, refl, inl, inr,
}
use open_pa.Queue.Threads
use open_pa.Queue.Threads.{
  Consumer, resting, testing, copying, resetting, loading, swinging, waiting, copying_next, ending,
  consume, consume_at,
}
use open_pa.Queue.Threads.Invariant.{Inv, Owner, Front, AtRest}
use open_pa.Queue.Delayed
use open_pa.Queue.Delayed.{
  Buffer, IsEmpty, IsFree, ProducerStep, set_shared, fill, clear_link, swap, link,
}
use open_pa.Queue.Delayed.Invariant.{Sim}
use open_pa.Queue.Delayed.Consumer.{first-next}
use open_pa.Queue.Resets.{seen, set_head, consume_seen}

-- While a reset waits: the consumer has elements ahead, or is at the compare-and-swap.
abbrev pub Ahead : Threads.System → Type 0
Ahead s = (s.shadow_head ≢ 0) ⊎ ((e : ℕ) × (s.consumer ≡ swinging e))

head_kept : (c : Consumer) (s : Threads.System) → c ≢ resetting → (consume_at c s).head ≡ s.head
unfolding consume_at
head_kept resting s n = refl
head_kept testing s n = elim (Bool-cases (s.head == 0)) [ inl e ↦ rw e refl | inr e ↦ rw e refl ]
head_kept copying s n = refl
head_kept resetting s n = absurd (n refl)
head_kept (loading e) s n = elim (Bool-cases (s.next e == 0)) [
  | inl b ↦ rw b refl
  | inr b ↦ rw b refl
]
head_kept (swinging e) s n = elim (Bool-cases (s.tail == e)) [
  | inl b ↦ rw b refl
  | inr b ↦ rw b refl
]
head_kept (waiting e) s n = elim (Bool-cases (s.next e == 0)) [
  | inl b ↦ rw b refl
  | inr b ↦ rw b refl
]
head_kept (copying_next e) s n = refl
head_kept (ending e) s n = refl

pub seen-consume_seen :
    (d : Bool) (s : Threads.System)
    → s.consumer ≢ resetting
    → seen d (consume_seen d s) ≡ consume (seen d s)
unfolding consume_seen consume
seen-consume_seen d s n =
    ap (set_head (consume (seen d s))) (sym (head_kept s.consumer (seen d s) n))

-- What the consumer relies on where it stands.
abbrev Relies : Consumer → Threads.System → Type 0
Relies copying s = s.shadow_head ≡ 0
Relies (copying_next e) s = s.next e ≢ 0
Relies (swinging e) s = ⊥
Relies _ s = Unit

consume_at-Ahead :
    (c : Consumer) (s : Threads.System) → s.shadow_head ≢ 0 → Relies c s → Ahead (consume_at c s)
unfolding consume_at
consume_at-Ahead resting s z r = inl z
consume_at-Ahead testing s z r = elim (Bool-cases (s.head == 0)) [
  | inl e ↦ rw e (inl z)
  | inr e ↦ rw e (inl z)
]
consume_at-Ahead copying s z r = absurd (z r)
consume_at-Ahead resetting s z r = inl z
consume_at-Ahead (loading e) s z r = elim (Bool-cases (s.next e == 0)) [
  | inl b ↦ rw b (inr (e, refl))
  | inr b ↦ rw b (inl z)
]
consume_at-Ahead (swinging e) s z r = absurd r
consume_at-Ahead (waiting e) s z r = elim (Bool-cases (s.next e == 0)) [
  | inl b ↦ rw b (inl z)
  | inr b ↦ rw b (inl z)
]
consume_at-Ahead (copying_next e) s z r = inl r
consume_at-Ahead (ending e) s z r = inl z

module _ (t : Delayed.System) (s : Threads.System) (v : Inv s) (h : Sim t s) where
  Front-Relies : (c : Consumer) → Front s c → ((e : ℕ) → c ≢ swinging e) → Relies c t.shared
  Front-Relies resting f n = tt
  Front-Relies testing f n = tt
  Front-Relies copying (z, _, _) n = ap (λ u. u.shadow_head) h.same ∙ z
  Front-Relies resetting f n = tt
  Front-Relies (loading e) f n = tt
  Front-Relies (swinging e) f n = absurd (n e refl)
  Front-Relies (waiting e) f n = tt
  Front-Relies (copying_next e) (_, f, z, k) n = λ m. k (sym (first-next t s h e f z) ∙ m)
  Front-Relies (ending e) f n = tt

  same_consumer : t.shared.consumer ≡ s.consumer
  same_consumer = ap (λ u. u.consumer) h.same

  pub still-Ahead :
      Ahead t.shared → ((e : ℕ) → t.shared.consumer ≢ swinging e) → Ahead (consume t.shared)
  unfolding consume
  still-Ahead (inl z) n = consume_at-Ahead t.shared.consumer t.shared z (
      subst (λ c. Relies c t.shared) (sym same_consumer)
        (Front-Relies s.consumer v.front λ e k. n e (same_consumer ∙ k)))
  still-Ahead (inr (e, k)) n = absurd (n e k)

  -- A producer does not store to the head while a reset waits.
  pub no_head : Ahead t.shared → (i x : ℕ) → (t.buffers i).head ≢ some x
  no_head k i x e = elim (subst (Owner s) ((h.local i).head x e) (v.owners i)) [
    | inl (_, _, _, _, z, r) ↦ elim k [
      | inl n ↦ n (ap (λ u. u.shadow_head) h.same ∙ z)
      | inr (e, m) ↦ subst AtRest (sym same_consumer ∙ m) r
    ]
    | inr (z, _, _) ↦ z refl
  ]

  pub resetting_ahead : t.shared.consumer ≡ resetting → t.shared.shadow_head ≢ 0
  resetting_ahead e =
      let (_, _, z) = subst (Front s) (sym same_consumer ∙ e) v.front in
      λ k. z (sym (ap (λ u. u.shadow_head) h.same) ∙ k)
