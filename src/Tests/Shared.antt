-- ===== src/Tests/Shared.antt =====
-- Threads that call operations on one counter under a lock, one after the other.
use open_pa.Base.{◌≡◌, ◌∷◌, ◌∙◌, refl, arith, ap, [], replicate, inr, sym, subst, List, ◌≤◌, ◌^◌}
use open_pa.Primitives.{Op}
use open_pa.Locked.Threads.{Reachable, Call, Entry, Memory, start, initial}
use open_pa.Locked.Body.{apply, answer}
use open_pa.Locked.Alone.{Alone-Reachable, Returned, call-Returned}
use open_pa.Locked.Counters.{
  Only, calls_on, results_on, AllDistinct, fetch_and_incr_int-AllDistinct, decr_and_test_int-last,
}
use open_pa.Tests.Locks.{mutex}

abbrev twos : Memory
twos = λ p. 2

abbrev takes : Call
takes = record { ptr = 1; op = Op.fetch_and_incr_int }

abbrev releases : Call
releases = record { ptr = 1; op = Op.decr_and_test_int }

call-Returned_example :
    Returned mutex (initial mutex twos) 0 takes (apply takes twos) (answer takes twos)
call-Returned_example = call-Returned mutex (initial mutex twos) 0 takes refl refl

-- Thread 0 calls, and then thread 1.
abbrev first_call :
    (c : Call) → Returned mutex (initial mutex twos) 0 c (apply c twos) (answer c twos)
first_call c = call-Returned mutex (initial mutex twos) 0 c refl refl

abbrev second_call :
    (c : Call)
    → Returned mutex
        (first_call c).state
        1
        c
        (apply c (first_call c).state.memory)
        (answer c (first_call c).state.memory)
second_call c =
    call-Returned mutex (first_call c).state 1 c ((first_call c).threads 1) (first_call c).free

both_reached : (c : Call) → Reachable mutex twos (second_call c).state
both_reached c =
    Alone-Reachable mutex twos 1 (first_call c).state (second_call c).state
      (Alone-Reachable mutex twos 0 (initial mutex twos) (first_call c).state start
        (first_call c).alone)
      (second_call c).alone

history_of :
    (c : Call)
    → (second_call c).state.history
      ≡ record { thread = 1; call = c; result = answer c (apply c twos) }
        ∷ record { thread = 0; call = c; result = answer c twos }
        ∷ []
history_of c =
    (second_call c).history
    ∙ ap (λ m. record { thread = 1; call = c; result = answer c m } ∷ (first_call c).state.history)
        (first_call c).memory
    ∙ ap (λ h. record { thread = 1; call = c; result = answer c (apply c twos) } ∷ h)
        (first_call c).history

-- What holds of that history holds of the state.
of_history :
    (c : Call) (P : List Entry → Type 0)
    → P (
        record { thread = 1; call = c; result = answer c (apply c twos) }
        ∷ record { thread = 0; call = c; result = answer c twos }
        ∷ [])
    → P (second_call c).state.history
of_history c P h = subst P (sym (history_of c)) h

fetch_and_incr_int-AllDistinct_example :
    AllDistinct (results_on 1 (second_call takes).state.history)
fetch_and_incr_int-AllDistinct_example =
    fetch_and_incr_int-AllDistinct mutex twos (second_call takes).state 1 (both_reached takes)
      (of_history takes (Only 1 Op.fetch_and_incr_int) (inr refl, (inr refl, tt))) (omega arith)
      (of_history takes (λ h. calls_on 1 h ≤ 2 ^ 32) (omega arith))

decr_and_test_int-last_example :
    results_on 1 (second_call releases).state.history ≡ 1 ∷ replicate 1 0
decr_and_test_int-last_example =
    decr_and_test_int-last mutex twos (second_call releases).state 1 1 (both_reached releases)
      (of_history releases (Only 1 Op.decr_and_test_int) (inr refl, (inr refl, tt))) refl
      (omega arith) (of_history releases (λ h. calls_on 1 h ≡ 2) refl)
