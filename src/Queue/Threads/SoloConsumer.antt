-- ===== src/Queue/Threads/SoloConsumer.antt =====
-- The two models of the queue of src/opa_queue.h agree on the consumer's calls that no producer
-- disturbs.
use open_pa.Base.{
  ℕ, ◌≡◌, ◌<◌, ◌==◌, if◌then◌else◌, true, false, Bool-cases, inl, inr, refl, sym, ap, ◌∙◌, subst,
  some, ==-eq, ==-ne, [], ◌∷◌, ◌++◌,
}
use open_pa.Shm.{address_mod, rel_to_abs}
use open_pa.Queue.{State, Run, ok, fault, update, is_empty, dequeue}
use open_pa.Queue.Shape.{link}
use open_pa.Queue.Runs.{
  is_empty-nothing, is_empty-shadow, is_empty-refill, dequeue-more, dequeue-last, dequeue-waits,
}
use open_pa.Queue.Threads.{
  Consumer, System, resting, testing, loading, waiting, set_link, consume_at, consume,
}
use open_pa.Queue.Threads.Solo.{Same, IsElement, link-Same, Agrees, link_set}

-- The consumer alone, from the call of `is_empty` to its return.
abbrev pub solo_is_empty : System → System
solo_is_empty t =
    consume (consume (consume (if t.shadow_head == 0 then record t { consumer = testing } else t)))

consuming : (t : System) (c : Consumer) → t.consumer ≡ c → consume t ≡ consume_at c t
unfolding consume
consuming t c e = ap (λ c. consume_at c t) e

rests : (t : System) → t.consumer ≡ resting → consume t ≡ t
unfolding consume_at
rests t e = consuming t resting e

rests_thrice : (t : System) → t.consumer ≡ resting → consume (consume (consume t)) ≡ t
rests_thrice t e = ap (λ u. consume (consume u)) (rests t e) ∙ ap consume (rests t e) ∙ rests t e

module _ (s : State) (t : System) where
  -- The function ends with the same answer, the consumer is back, and the models agree.
  abbrev pub AnswersTo : System → Type 0
  AnswersTo u =
      (s' : State) × (is_empty s ≡ ok (u.shadow_head == 0) s')
      × Agrees s' u
      × (u.consumer ≡ resting)

module _ (s : State) (t : System) (g : Agrees s t) where
  nothing-AnswersTo :
      t.shadow_head ≡ 0 → t.head ≡ 0 → AnswersTo s t (record t { consumer = resting })
  nothing-AnswersTo z y = (
    s,
    is_empty-nothing s (g.shadow_head ∙ z) (g.head ∙ y) ∙ ap (λ x. ok (x == 0) s) (sym z),
    record {
      based = g.based;
      head = g.head;
      tail = g.tail;
      shadow_head = g.shadow_head;
      links = g.links;
    },
    refl,
  )

  shadow-AnswersTo : t.consumer ≡ resting → (t.shadow_head == 0) ≡ false → AnswersTo s t t
  shadow-AnswersTo e b = (
    s,
    is_empty-shadow s (λ z. ==-ne _ _ b (sym g.shadow_head ∙ z)) ∙ ap (λ x. ok x s) (sym b),
    g,
    e,
  )

  abbrev refilled : System
  refilled = record t { head = 0; shadow_head = t.head; consumer = resting }

  refill-AnswersTo : t.shadow_head ≡ 0 → (t.head == 0) ≡ false → AnswersTo s t refilled
  refill-AnswersTo z b = (
    record s { shadow_head = s.head; head = 0 },
    is_empty-refill s (g.shadow_head ∙ z) (λ y. ==-ne _ _ b (sym g.head ∙ y))
        ∙ ap (λ x. ok x (record s { shadow_head = s.head; head = 0 })) (sym b),
    record { based = g.based; head = refl; tail = g.tail; shadow_head = g.head; links = g.links },
    refl,
  )

  -- In a queue that is the same in both models, while the consumer is in no call: `is_empty` ends in the
  -- function; the accesses of the consumer alone, from its call, bring it back from the call; the answer is
  -- 1 exactly if the shadow head is then null; and the queue is the same afterwards.
  pub is_empty-AnswersTo : t.consumer ≡ resting → AnswersTo s t (solo_is_empty t)
  unfolding consume consume_at
  is_empty-AnswersTo e = elim (Bool-cases (t.shadow_head == 0)) [
    | inl b ↦ elim (Bool-cases (t.head == 0)) [
      | inl c ↦ rw (b, c) (nothing-AnswersTo (==-eq _ _ b) (==-eq _ _ c))
      | inr c ↦ rw (b, c) (refill-AnswersTo (==-eq _ _ b) c)
    ]
    | inr b ↦ rw b (subst (AnswersTo s t) (sym (rests_thrice t e)) (shadow-AnswersTo e b))
  ]

-- The consumer alone, from the call of `dequeue`, for three accesses.
abbrev pub solo_dequeue : System → System
solo_dequeue t = consume (consume (consume (record t { consumer = loading t.shadow_head })))

module _ (s : State) (t : System) where
  -- The function returns the element of the shadow head, the consumer is back with it, and the models
  -- agree; or both are in the busy wait, with nothing to end it.
  abbrev pub Dequeued : Run ℕ → System → Type 0
  Dequeued (ok e s') u =
      (e ≡ rel_to_abs s.base t.shadow_head)
      × Agrees s' u
      × (u.consumer ≡ resting)
      × (u.returned ≡ t.returned ++ t.shadow_head ∷ [])
  Dequeued fault u = ⊥
  Dequeued Run.waiting u = (u.consumer ≡ waiting t.shadow_head) × (u.next t.shadow_head ≡ 0)

module _ (s : State) (t : System) (g : Agrees s t) (k : t.shadow_head < address_mod)
    (elt : IsElement s t.shadow_head) where
  here : link s s.shadow_head ≡ some (t.next t.shadow_head)
  here =
      ap (link s) g.shadow_head
      ∙ link-Same s (t.next t.shadow_head) t.shadow_head elt (g.links t.shadow_head k)

  -- The links after the reset, where the shadow head is named by the other model.
  reset_links :
      (r : ℕ)
      → r < address_mod
      → Same
          (update s.next (rel_to_abs s.base s.shadow_head) 0 (rel_to_abs s.base r))
          (set_link t.next t.shadow_head 0 r)
  reset_links r h =
      subst
        (λ x.
          Same (update s.next (rel_to_abs s.base x) 0 (rel_to_abs s.base r))
            (set_link t.next t.shadow_head 0 r))
        (sym g.shadow_head) (link_set s t.next t.shadow_head 0 g.based k g.links r h)

  more-Dequeued :
      (fuel : ℕ)
      → (t.next t.shadow_head == 0) ≡ false
      → Dequeued s t (dequeue fuel s) (solo_dequeue t)
  unfolding consume consume_at
  more-Dequeued fuel b =
      rw (b, dequeue-more s fuel (t.next t.shadow_head) here (==-ne _ _ b))
        (
          ap (rel_to_abs s.base) g.shadow_head,
          record {
            based = g.based;
            head = g.head;
            tail = g.tail;
            shadow_head = refl;
            links = reset_links;
          },
          refl,
          refl,
        )

  last-Dequeued :
      (fuel : ℕ)
      → (t.next t.shadow_head == 0) ≡ true
      → (t.tail == t.shadow_head) ≡ true
      → Dequeued s t (dequeue fuel s) (solo_dequeue t)
  unfolding consume consume_at
  last-Dequeued fuel b c =
      rw
        (
          b,
          c,
          dequeue-last s fuel (here ∙ ap some (==-eq _ _ b))
              (g.tail ∙ ==-eq _ _ c ∙ sym g.shadow_head),
        )
        (
          ap (rel_to_abs s.base) g.shadow_head,
          record {
            based = g.based;
            head = g.head;
            tail = refl;
            shadow_head = refl;
            links = reset_links;
          },
          refl,
          refl,
        )

  waits-Dequeued :
      (fuel : ℕ)
      → (t.next t.shadow_head == 0) ≡ true
      → (t.tail == t.shadow_head) ≡ false
      → Dequeued s t (dequeue fuel s) (solo_dequeue t)
  unfolding consume consume_at
  waits-Dequeued fuel b c =
      rw
        (
          b,
          c,
          dequeue-waits s fuel (here ∙ ap some (==-eq _ _ b))
              (λ h. ==-ne _ _ c (sym g.tail ∙ h ∙ g.shadow_head)),
        )
        (rw b (refl, ==-eq _ _ b))

  -- In a queue that is the same in both models, whatever its links, with an element at the shadow
  -- head, which is in range, and for any fuel of the busy wait: either `dequeue` ends in the function,
  -- with the element at the shadow head, and the accesses of the consumer alone, from its call, bring it
  -- back with that element and leave the same queue; or the function runs out of fuel in the busy wait, and
  -- the consumer is in the busy wait for a link that is null.
  pub dequeue-Dequeued : (fuel : ℕ) → Dequeued s t (dequeue fuel s) (solo_dequeue t)
  dequeue-Dequeued fuel = elim (Bool-cases (t.next t.shadow_head == 0)) [
    | inl b ↦ elim (Bool-cases (t.tail == t.shadow_head)) [
      | inl c ↦ last-Dequeued fuel b c
      | inr c ↦ waits-Dequeued fuel b c
    ]
    | inr b ↦ more-Dequeued fuel b
  ]
