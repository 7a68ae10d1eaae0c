-- ===== src/Tests/Delayed.antt =====
-- Two producers with delayed stores and the consumer.
use open_pa.Base.{
  ◌⊎◌, ap, ==-self, if◌then◌else◌, set_at_self, subst, ℕ, ◌≡◌, ◌≢◌, ◌==◌, Bool-cases, inl, inr,
  refl, arith, some, set_at,
}
use open_pa.Queue.Threads
use open_pa.Queue.Threads.{consume, consume_at, ending}
use open_pa.Queue.Delayed.Order.{
  dequeue-waits_for_store, delayed-Shows, Shows, dequeue-given_contents, IsPublic,
}
use open_pa.Queue.Delayed.{
  at_link, clearing_link, at_barrier, empty, System, Buffer, IsEmpty, IsFree, Step, ProducerStep,
  Reachable, start, initial, fill, clear_link, swap, link, at_swap, filling, deliver_content,
  deliver_next, deliver_head, set_writer, set_shared,
}

-- Producer 3 has element 16, to which it stores 5, and producer 4 has 32; links are null before, and the
-- contents 7.
abbrev pub blank : System
blank = initial (λ p. 0) (λ p. 7)

abbrev pub begin : (i a c : ℕ) → System → System
begin i a c t = record t {
  writers = set_at t.writers i (filling a c);
  given = Threads.set_link t.given a c;
}

abbrev pub stored : (i a c : ℕ) → System → System
stored i a c t = clear_link i a (fill i a c t)

-- The null link takes effect before the contents.
abbrev pub delivered : (i a c : ℕ) → System → System
delivered i a c t = deliver_content i a c (deliver_next i a 0 t)

abbrev pub begun : System
begun = begin 4 32 6 (begin 3 16 5 blank)

abbrev pub passes : (i a c : ℕ) → System → System
passes i a c t = set_writer (delivered i a c (stored i a c t)) i (at_swap a)

abbrev pub passed : System
passed = passes 4 32 6 (passes 3 16 5 begun)

abbrev pub first_linked : System
first_linked = deliver_head 3 16 (link 3 0 16 (swap 3 16 passed))

abbrev consumes : System → System
consumes t = set_shared t (consume t.shared)

-- From the call of `is_empty` to the swap of the tail in `dequeue`.
abbrev looking : System → System
looking t = set_shared t (record (t.shared) { consumer = Threads.testing })

abbrev ready : System → System
ready t = consumes (consumes (consumes (looking t)))

abbrev dequeuing : System → System
dequeuing t = consumes (
    set_shared (ready t)
      (record ((ready t).shared) { consumer = Threads.loading (ready t).shared.shadow_head }))

abbrev returning : System
returning = consumes (dequeuing first_linked)

-- The second producer swaps the tail first, and its link waits.
abbrev waits : System
waits = link 4 16 32 (consumes (swap 4 32 (dequeuing first_linked)))

first-IsFree : IsFree blank 16
first-IsFree = record {
  not_null = ground arith;
  not_queued = tt;
  not_held = tt;
  no_holder = λ j o. o;
  no_head = λ j e. cc;
  no_link = λ j p e. cc;
}

second-IsFree : IsFree (begin 3 16 5 blank) 32
second-IsFree = record {
  not_null = ground arith;
  not_queued = tt;
  not_held = tt;
  no_holder = λ j. elim (Bool-cases (3 == j)) [
    | inl e ↦ rw e (λ o. ground (arith, o))
    | inr e ↦ rw e (λ o. o)
  ];
  no_head = λ j e. cc;
  no_link = λ j p e. cc;
}

abbrev pub Reaches : (Buffer → Type 0) → System → Type 0
Reaches Barrier t = Reachable Barrier (λ p. 0) (λ p. 7) t

begun-Reaches : (Barrier : Buffer → Type 0) → Reaches Barrier begun
begun-Reaches Barrier =
    Reachable.then
      (Reachable.then start (Step.produced (ProducerStep.begin_enqueue 3 16 5 refl first-IsFree)))
      (Step.produced (ProducerStep.begin_enqueue 4 32 6 refl second-IsFree))

stored-Reaches :
    (Barrier : Buffer → Type 0) (i a c : ℕ) (t : System)
    → t.writers i ≡ filling a c
    → Reaches Barrier t
    → Reaches Barrier (stored i a c t)
unfolding fill
stored-Reaches Barrier i a c t e r =
    Reachable.then (Reachable.then r (Step.produced (ProducerStep.filled i a c e)))
      (Step.produced (ProducerStep.cleared i a (set_at_self t.writers i (clearing_link a))))

module _ (i a c : ℕ) (t : System) (e : t.writers i ≡ filling a c) (m : t.buffers i ≡ empty) where
  null_waits : ((stored i a c t).buffers i).next a ≡ some 0
  unfolding fill clear_link
  null_waits = rw (==-self i, ==-self a) refl

  content_waits : ((deliver_next i a 0 (stored i a c t)).buffers i).content a ≡ some c
  unfolding fill clear_link
  content_waits = rw (==-self i, ==-self a) refl

  all_delivered : IsEmpty ((delivered i a c (stored i a c t)).buffers i)
  unfolding fill clear_link
  all_delivered =
      rw (==-self i, m)
        (
          refl,
          (λ p. elim (Bool-cases (a == p)) [ inl e ↦ rw e refl | inr e ↦ rw e refl ]),
          (λ p. elim (Bool-cases (a == p)) [ inl e ↦ rw e refl | inr e ↦ rw e refl ]),
        )

  before_barrier : (delivered i a c (stored i a c t)).writers i ≡ at_barrier a
  unfolding fill clear_link
  before_barrier = rw (==-self i) refl

  passes-Reaches : Reaches IsEmpty t → Reaches IsEmpty (passes i a c t)
  passes-Reaches r =
      Reachable.then
        (Reachable.then
          (Reachable.then (stored-Reaches IsEmpty i a c t e r)
            (Step.produced (ProducerStep.next_delivered i a 0 null_waits)))
          (Step.produced (ProducerStep.content_delivered i a c content_waits)))
        (Step.produced (ProducerStep.passed i a before_barrier all_delivered))

-- The consumer comes to an element that is linked to the head, with or without a barrier.
begin_is_empty-Reaches :
    (Barrier : Buffer → Type 0) (t : System)
    → Reaches Barrier t
    → t.shared.consumer ≡ Threads.resting
    → t.shared.shadow_head ≡ 0
    → Reaches Barrier (looking t)
begin_is_empty-Reaches B t r c z =
    subst
      (λ b.
        Reaches B
          (set_shared t (if b then record (t.shared) { consumer = Threads.testing } else t.shared)))
      (ap (λ h. h == 0) z) (Reachable.then r (Step.begin_is_empty c))

dequeuing-Reaches :
    (Barrier : Buffer → Type 0) (t : System)
    → Reaches Barrier t
    → t.shared.consumer ≡ Threads.resting
    → t.shared.shadow_head ≡ 0
    → (ready t).shared.consumer ≡ Threads.resting
    → (ready t).shared.shadow_head ≢ 0
    → Reaches Barrier (dequeuing t)
dequeuing-Reaches B t r c z d n =
    Reachable.then
      (Reachable.then
        (Reachable.then
          (Reachable.then (Reachable.then (begin_is_empty-Reaches B t r c z) Step.consumed)
            Step.consumed)
          Step.consumed)
        (Step.begin_dequeue d n))
      Step.consumed

passed-Reaches : Reaches IsEmpty passed
unfolding fill clear_link
passed-Reaches =
    passes-Reaches 4 32 6 (passes 3 16 5 begun) refl refl
      (passes-Reaches 3 16 5 begun refl refl (begun-Reaches IsEmpty))

-- From the swap of a tail that is null to the head in memory.
module _ (Barrier : Buffer → Type 0) (i a : ℕ) (t : System) (e : t.writers i ≡ at_swap a)
    (z : t.shared.tail ≡ 0) where
  swapped_first : (swap i a t).writers i ≡ at_link 0 a
  unfolding swap
  swapped_first = rw (==-self i, z) refl

  head_waits : ((link i 0 a (swap i a t)).buffers i).head ≡ some a
  unfolding link
  head_waits = rw (==-self i) refl

  linked-Reaches : Reaches Barrier t → Reaches Barrier (deliver_head i a (link i 0 a (swap i a t)))
  linked-Reaches r =
      Reachable.then
        (Reachable.then (Reachable.then r (Step.produced (ProducerStep.swapped i a e)))
          (Step.produced (ProducerStep.linked i 0 a swapped_first)))
        (Step.produced (ProducerStep.head_delivered i a head_waits))

pub first_linked-Reaches : Reaches IsEmpty first_linked
unfolding fill clear_link
first_linked-Reaches = linked-Reaches IsEmpty 3 16 passed refl refl passed-Reaches

dequeuing_first-Reaches : Reaches IsEmpty (dequeuing first_linked)
unfolding fill clear_link swap link consume consume_at
dequeuing_first-Reaches =
    dequeuing-Reaches IsEmpty first_linked first_linked-Reaches refl refl refl (ground arith)

returning-Reaches : Reaches IsEmpty returning
returning-Reaches = Reachable.then dequeuing_first-Reaches Step.consumed

dequeue-given_contents_example :
    IsPublic returning 16 × (returning.contents 16 ≡ returning.given 16)
unfolding fill clear_link swap link consume consume_at
dequeue-given_contents_example =
    dequeue-given_contents IsEmpty (λ b m. m) (λ p. 0) (λ p. 7) returning returning-Reaches 16 refl

waits-Reaches : Reaches IsEmpty waits
unfolding fill clear_link swap link consume consume_at
waits-Reaches =
    Reachable.then
      (Reachable.then
        (Reachable.then dequeuing_first-Reaches (Step.produced (ProducerStep.swapped 4 32 refl)))
        Step.consumed)
      (Step.produced (ProducerStep.linked 4 16 32 refl))

dequeue-waits_for_store_example :
    (i a : ℕ) × (((waits.writers i ≡ at_link 16 a)
        × (((link i 16 a waits).buffers i).next 16 ≡ some a))
      ⊎ ((waits.buffers i).next 16 ≡ some a))
    × ((deliver_next i 16 a waits).shared.next 16 ≢ 0)
unfolding fill clear_link swap link consume consume_at
dequeue-waits_for_store_example =
    dequeue-waits_for_store IsEmpty (λ b m. m) (λ p. 0) (λ p. 7) waits waits-Reaches 16 refl refl

delayed-Shows_example : (s : Threads.System) × Threads.Reachable (λ p. 0) s × Shows waits s
delayed-Shows_example = delayed-Shows IsEmpty (λ b m. m) (λ p. 0) (λ p. 7) waits waits-Reaches

-- The barrier matters: with one that never waits, `dequeue` returns an element whose contents are old.
abbrev unordered : System
unordered = set_writer (stored 3 16 5 begun) 3 (at_swap 16)

abbrev overtaken : System
overtaken = consumes (dequeuing (deliver_head 3 16 (link 3 0 16 (swap 3 16 unordered))))

unordered-Reaches : Reaches (λ b. Unit) unordered
unfolding fill clear_link
unordered-Reaches =
    Reachable.then (stored-Reaches (λ b. Unit) 3 16 5 begun refl (begun-Reaches (λ b. Unit)))
      (Step.produced (ProducerStep.passed 3 16 refl tt))

overtaken-Reaches : Reaches (λ b. Unit) overtaken
unfolding fill clear_link swap link consume consume_at
overtaken-Reaches =
    Reachable.then
      (dequeuing-Reaches (λ b. Unit) (deliver_head 3 16 (link 3 0 16 (swap 3 16 unordered)))
        (linked-Reaches (λ b. Unit) 3 16 unordered refl refl unordered-Reaches) refl refl refl
        (ground arith))
      Step.consumed

overtaken-old :
    (overtaken.shared.consumer ≡ ending 16) × (overtaken.contents 16 ≡ 7) × (overtaken.given 16 ≡ 5)
unfolding fill clear_link swap link consume consume_at
overtaken-old = (refl, refl, refl)
