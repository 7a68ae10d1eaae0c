-- ===== src/Tests/Queues.antt =====
-- A queue with three elements in a segment at 0x1000, and the addresses of the segment.
use open_pa.Base.{
  ◌%◌, ◌+◌, inl, false, none, some, ◌||◌, ◌==◌, if◌then◌else◌, inr, Option, ℕ, ◌≡◌, refl, [], ◌∷◌,
  arith, List,
}
use open_pa.Shm.{rel_to_abs, abs_to_rel, address_mod, asymm_init}
use open_pa.Shm.Address.{rel_shared, asymm_init_twice}
use open_pa.Queue.{update, State, is_empty, enqueue, dequeue}
use open_pa.Queue.Shape.{Holds, link}
use open_pa.Queue.Dequeue.{dequeue-cons}
use open_pa.Queue.Ops.{Ends, Ready, SameElements, enqueue-snoc, is_empty-Ready}
use open_pa.Queue.Calls.{Call, put, take, look, calls, calls-refine, AllAllowed, spec_outs}

-- Elements at 0x1010, 0x1020 and 0x1030.
abbrev headers : ℕ → Option ℕ
headers p = if p == 0x1010 || p == 0x1020 || p == 0x1030 then some 0 else none

abbrev empty : State
empty = record { base = 0x1000; head = 0; tail = 0; shadow_head = 0; next = headers }

empty-Holds : Holds empty []
empty-Holds = record {
  based = omega arith;
  linked = tt;
  valid = tt;
  tail = refl;
  front = (refl, refl);
}

-- Two elements, the first still in the head.
abbrev two : State
two = record {
  base = 0x1000;
  head = 0x10;
  tail = 0x20;
  shadow_head = 0;
  next = update headers 0x1010 0x20;
}

two-Holds : Holds two (0x10 ∷ 0x20 ∷ [])
unfolding rel_to_abs
two-Holds = record {
  based = omega arith;
  linked = (refl, (refl, tt));
  valid = omega arith;
  tail = refl;
  front = inr (refl, refl);
}

-- The same after `is_empty`.
abbrev two_ready : State
two_ready = record two { head = 0; shadow_head = 0x10 }

two_ready-Ready : Ready two_ready (0x10 ∷ 0x20 ∷ [])
two_ready-Ready = record {
  holds = record {
    based = two-Holds.based;
    linked = two-Holds.linked;
    valid = two-Holds.valid;
    tail = refl;
    front = inl (refl, refl);
  };
  shadow = refl;
  head = refl;
}

here_30 : link two 0x30 ≡ some 0
unfolding rel_to_abs
here_30 = refl

enqueue-snoc_example :
    Ends
      (λ _ s'. Holds s' (0x10 ∷ 0x20 ∷ 0x30 ∷ []) × (s'.base ≡ 0x1000) × SameElements two s')
      (enqueue (rel_to_abs 0x1000 0x30) two)
enqueue-snoc_example =
    enqueue-snoc two 0x30 0 (omega arith) (omega arith) here_30 (0x10 ∷ 0x20 ∷ []) two-Holds
      (omega arith)

dequeue-cons_example :
    Ends
      (λ e s'.
        (e ≡ rel_to_abs 0x1000 0x10)
        × Holds s' (0x20 ∷ [])
        × (link s' 0x10 ≡ some 0)
        × (s'.base ≡ 0x1000)
        × SameElements two_ready s')
      (dequeue 1 two_ready)
dequeue-cons_example = dequeue-cons 1 two_ready 0x10 (0x20 ∷ []) two_ready-Ready

is_empty-Ready_example :
    Ends
      (λ b s'.
        (b ≡ false) × Ready s' (0x10 ∷ 0x20 ∷ []) × (s'.base ≡ 0x1000) × (s'.next ≡ two.next))
      (is_empty two)
is_empty-Ready_example = is_empty-Ready two (0x10 ∷ 0x20 ∷ []) two-Holds

-- The sequence of test_queue_sanity of test/test_queue.c, with three elements.
abbrev sanity : List Call
sanity =
    take
    ∷ put 0x10
    ∷ look
    ∷ take
    ∷ take
    ∷ put 0x20
    ∷ put 0x30
    ∷ take
    ∷ put 0x10
    ∷ take
    ∷ look
    ∷ take
    ∷ take
    ∷ []

sanity-AllAllowed : AllAllowed empty sanity []
unfolding rel_to_abs
sanity-AllAllowed = (
  tt,
  (
    (ground arith, omega arith, refl, tt),
    (
      tt,
      (
        tt,
        (
          tt,
          (
            (ground arith, omega arith, refl, tt),
            (
              (ground arith, omega arith, refl, (ground arith, tt)),
              (
                tt,
                ((ground arith, omega arith, refl, (ground arith, tt)), (tt, (tt, (tt, (tt, tt))))),
              ),
            ),
          ),
        ),
      ),
    ),
  ),
)

calls-refine_example :
    Ends (λ outs s'. (outs ≡ spec_outs 0x1000 sanity []) × Holds s' []) (calls 1 sanity empty)
calls-refine_example = calls-refine 1 sanity empty [] empty-Holds sanity-AllAllowed

rel_shared_example :
    rel_to_abs 0x7000 (abs_to_rel 0x1000 ((0x1000 + 0x30) % address_mod))
    ≡ (0x7000 + 0x30) % address_mod
rel_shared_example = rel_shared 0x1000 0x7000 0x30 (omega arith) (omega arith)

asymm_init_twice_example : asymm_init 5 (asymm_init 0x1000 64).1 ≡ (16, 0x1000)
asymm_init_twice_example = asymm_init_twice 0x1000 5 refl
