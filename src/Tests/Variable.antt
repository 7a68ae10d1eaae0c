-- ===== src/Tests/Variable.antt =====
-- The emulated operations of src/primitives/opa_emulated.h on a variable that others write too.
use open_pa.Base.{◌^◌, ℕ, ◌≡◌, refl, [], ◌∷◌, false, arith}
use open_pa.Base.Word.{add32}
use open_pa.Cell.{
  out_of_fuel, done, settle, done, Outcome, World, lose, put, load_link, store_conditional, get,
  compare_exchange,
}
use open_pa.Cell.Laws.{Finishes, InRange, Applied, Swapped}
use open_pa.Cell.Actions.{load_link-Linked}
use open_pa.Emulated.{fetch_and_add_int_by_llsc, cas_int_by_llsc, fetch_and_add_int_by_cas}
use open_pa.Emulated.ByLlsc.{IsLlsc}
use open_pa.Emulated.ByLlsc.Ops.{fetch_and_add_int_by_llsc-Applied, cas_int_by_llsc-Swapped}
use open_pa.Emulated.ByCas.{IsCas, fetch_and_add_int_by_cas-Applied}
use open_pa.Cell.Loop.{do_while}
use open_pa.Primitives.{int_mod}

-- Others store 9, then lose the reservation, then store 9 again.
abbrev pub busy : World
busy = record { cell = 7; linked = false; ahead = put 9 ∷ lose ∷ put 9 ∷ []; trace = [] }

pub busy-InRange : InRange int_mod busy
busy-InRange = record { cell = omega arith; ahead = (omega arith, (omega arith, tt)) }

pub busy-InRange64 : InRange (2 ^ 64) busy
busy-InRange64 = record { cell = omega arith; ahead = (omega arith, (omega arith, tt)) }

llsc : IsLlsc int_mod load_link store_conditional
llsc = record { links = λ w r. load_link-Linked int_mod w r; stores = λ v w h. refl }

cas : IsCas get compare_exchange
cas = record { loads = λ w. refl; exchanges = λ old new w. refl }

fetch_and_add_int_by_llsc-Applied_example :
    Finishes
      (Applied int_mod (λ p. add32 p 5) busy)
      (fetch_and_add_int_by_llsc load_link store_conditional 4 5 busy)
fetch_and_add_int_by_llsc-Applied_example =
    fetch_and_add_int_by_llsc-Applied 4 busy (omega arith) llsc busy-InRange 5

cas_int_by_llsc-Swapped_example :
    Finishes (Swapped int_mod 9 1 busy) (cas_int_by_llsc load_link store_conditional 4 9 1 busy)
cas_int_by_llsc-Swapped_example =
    cas_int_by_llsc-Swapped 4 busy (omega arith) llsc busy-InRange 9 1 (omega arith)

fetch_and_add_int_by_cas-Applied_example :
    Finishes
      (Applied int_mod (λ p. add32 p 5) busy)
      (fetch_and_add_int_by_cas get compare_exchange 4 5 busy)
fetch_and_add_int_by_cas-Applied_example =
    fetch_and_add_int_by_cas-Applied cas 4 busy (omega arith) busy-InRange 5

-- The addition is on the last value stored by the others.
abbrev outcome_cell : Outcome ℕ → ℕ
outcome_cell (done a w) = w.cell
outcome_cell out_of_fuel = 0

add_runs : outcome_cell (fetch_and_add_int_by_llsc load_link store_conditional 4 5 busy) ≡ 14
unfolding fetch_and_add_int_by_llsc do_while load_link store_conditional settle add32
add_runs = refl
