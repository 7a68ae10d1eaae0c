-- ===== src/Tests/Interleaved.antt =====
-- A producer and the consumer, interleaved.
use open_pa.Base.{
  Bool-cases, inl, inr, ◌≢◌, ℕ, ◌≡◌, ◌==◌, if◌then◌else◌, [], ◌∷◌, ◌++◌, ◌⊎◌, refl, arith,
}
use open_pa.Queue.Shape.{first}
use open_pa.Queue.Threads.Order.{dequeue-waits_for_producer}
use open_pa.Queue.Threads.{
  Owns, loading, consume, consume_at, System, Step, Reachable, start, initial, produce, produce_at,
  held, set_producer, clearing, linking, testing,
}
use open_pa.Queue.Threads.Order.{first_in-first_out, is_empty-nothing_linked}

-- The producer has the element, has reset its link, has swapped the tail.
abbrev begun : System
begun = record (initial (λ p. 7)) {
  producers = set_producer (initial (λ p. 7)).producers 3 (clearing 16);
}

abbrev swapped : System
swapped = produce 3 (produce 3 begun)

-- The consumer is in `is_empty`, and the head is not stored yet.
abbrev looking : System
looking = if swapped.shadow_head == 0 then record swapped { consumer = testing } else swapped

begun-Reachable : Reachable (λ p. 7) begun
begun-Reachable =
    Reachable.then start (Step.begin_enqueue 3 16 refl (ground arith) tt tt (λ j o. o))

looking-Reachable : Reachable (λ p. 7) looking
unfolding produce produce_at
looking-Reachable =
    Reachable.then
      (Reachable.then (Reachable.then begun-Reachable (Step.producer 3)) (Step.producer 3))
      (Step.begin_is_empty refl)

first_in-first_out_example :
    looking.entered ≡ looking.returned ++ (held looking.consumer ++ looking.queued)
first_in-first_out_example = first_in-first_out (λ p. 7) looking looking-Reachable

is_empty-nothing_linked_example :
    (looking.queued ≡ []) ⊎ ((i : ℕ) × (looking.producers i ≡ linking 0 (first looking.queued)))
unfolding produce produce_at
is_empty-nothing_linked_example =
    is_empty-nothing_linked (λ p. 7) looking looking-Reachable refl refl

-- One element from its producer to the consumer's hands.
looking-entered : looking.entered ≡ 16 ∷ []
unfolding produce produce_at
looking-entered = refl

-- A second producer swaps the tail while the consumer is in `dequeue` of the only element.
abbrev ready : System
ready = consume (consume (consume (record (produce 3 swapped) { consumer = testing })))

abbrev both : System
both = record ready {
  consumer = loading 16;
  producers = set_producer ready.producers 4 (clearing 32);
}

abbrev waits : System
waits = consume (produce 4 (produce 4 (consume both)))

ready-Reachable : Reachable (λ p. 7) ready
unfolding produce produce_at
ready-Reachable =
    Reachable.then
      (Reachable.then
        (Reachable.then
          (Reachable.then
            (Reachable.then
              (Reachable.then (Reachable.then begun-Reachable (Step.producer 3)) (Step.producer 3))
              (Step.producer 3))
            (Step.begin_is_empty refl))
          Step.consumer)
        Step.consumer)
      Step.consumer

nobody : (j : ℕ) → Owns (ready.producers j) 32 → ⊥
unfolding produce produce_at consume consume_at
nobody j = elim (Bool-cases (3 == j)) [ inl h ↦ rw h (λ o. o) | inr h ↦ rw h (λ o. o) ]

waits-Reachable : Reachable (λ p. 7) waits
unfolding produce produce_at consume consume_at
waits-Reachable =
    Reachable.then
      (Reachable.then
        (Reachable.then
          (Reachable.then
            (Reachable.then
              (Reachable.then ready-Reachable (Step.begin_dequeue refl (ground arith)))
              (Step.begin_enqueue 4 32 refl (ground arith) (ground arith, tt) tt nobody))
            Step.consumer)
          (Step.producer 4))
        (Step.producer 4))
      Step.consumer

dequeue-waits_for_producer_example :
    (i a : ℕ) × (waits.producers i ≡ linking 16 a) × ((produce i waits).next 16 ≢ 0)
unfolding produce produce_at consume consume_at
dequeue-waits_for_producer_example =
    dequeue-waits_for_producer (λ p. 7) waits 16 waits-Reachable refl refl
