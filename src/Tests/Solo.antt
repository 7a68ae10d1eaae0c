-- ===== src/Tests/Solo.antt =====
-- The two models of the queue, side by side.
use open_pa.Base.{refl, arith, inr, some}
use open_pa.Queue.{State, dequeue}
use open_pa.Queue.Threads.{System, initial}
use open_pa.Queue.Threads.Solo.{Agrees, EnqueuesTo, solo_enqueue, enqueue-EnqueuesTo}
use open_pa.Queue.Threads.SoloConsumer.{Dequeued, solo_dequeue, dequeue-Dequeued}

-- Every offset has an element, and each link is null.
abbrev in_memory : State
in_memory = record { base = 0; head = 0; tail = 0x10; shadow_head = 0x10; next = λ p. some 0 }

abbrev in_steps : System
in_steps = record (initial (λ r. 0)) { tail = 0x10; shadow_head = 0x10 }

in_steps-Agrees : Agrees in_memory in_steps
in_steps-Agrees = record {
  based = omega arith;
  head = refl;
  tail = refl;
  shadow_head = refl;
  links = λ r h. refl;
}

enqueue-EnqueuesTo_example : EnqueuesTo in_memory 3 0x20 (solo_enqueue 3 0x20 in_steps)
enqueue-EnqueuesTo_example =
    enqueue-EnqueuesTo in_memory in_steps 3 0x20 in_steps-Agrees (omega arith) (0, refl)
      (omega arith) (inr (0, refl))

dequeue-Dequeued_example : Dequeued in_memory in_steps (dequeue 2 in_memory) (solo_dequeue in_steps)
dequeue-Dequeued_example =
    dequeue-Dequeued in_memory in_steps in_steps-Agrees (omega arith) (0, refl) 2
