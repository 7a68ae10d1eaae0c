-- ===== src/Emulated/ByLlsc/Ops.antt =====
-- The promises of the operations that src/primitives/opa_emulated.h builds from load-link and
-- store-conditional.
use open_pa.Base.{ℕ, ◌<◌, Bool, length}
use open_pa.Base.Word.{add32, add32-lt, minus_one}
use open_pa.Cell.{World, M}
use open_pa.Cell.Laws.{Finishes, InRange, Applied, Swapped}
use open_pa.Primitives.{no_result, Updated, int_mod}
use open_pa.Primitives.Derived.{updated, discarded}
use open_pa.Emulated.{
  add_int_by_llsc, incr_int_by_llsc, decr_int_by_llsc, fetch_and_add_int_by_llsc,
  fetch_and_decr_int_by_llsc, fetch_and_incr_int_by_llsc, cas_ptr_by_llsc, cas_int_by_llsc,
  swap_ptr_by_llsc, swap_int_by_llsc,
}
use open_pa.Emulated.ByLlsc.{IsLlsc, llsc_loop-Applied, llsc_loop-Swapped}

module _ {ll : M ℕ} {sc : ℕ → M Bool} (fuel : ℕ) (w : World) (h : length w.ahead < fuel) where
  module _ (laws : IsLlsc int_mod ll sc) (r : InRange int_mod w) where
    -- For any load-link and store-conditional that satisfy their laws, with more fuel than events
    -- ahead and a variable in range: fetch-and-add ends, has made one write, which replaced the
    -- value that it returns by the 32-bit sum, and nobody has written since.
    pub fetch_and_add_int_by_llsc-Applied :
        (val : ℕ)
        → Finishes
            (Applied int_mod (λ p. add32 p val) w)
            (fetch_and_add_int_by_llsc ll sc fuel val w)
    unfolding fetch_and_add_int_by_llsc
    fetch_and_add_int_by_llsc-Applied val =
        llsc_loop-Applied laws (λ p. add32 p val) (λ v b. add32-lt v val) fuel w r h

    pub fetch_and_incr_int_by_llsc-Applied :
        Finishes (Applied int_mod (λ p. add32 p 1) w) (fetch_and_incr_int_by_llsc ll sc fuel w)
    unfolding fetch_and_incr_int_by_llsc
    fetch_and_incr_int_by_llsc-Applied = fetch_and_add_int_by_llsc-Applied 1

    pub fetch_and_decr_int_by_llsc-Applied :
        Finishes
          (Applied int_mod (λ p. add32 p minus_one) w)
          (fetch_and_decr_int_by_llsc ll sc fuel w)
    unfolding fetch_and_decr_int_by_llsc
    fetch_and_decr_int_by_llsc-Applied = fetch_and_add_int_by_llsc-Applied minus_one

    pub add_int_by_llsc-Updated :
        (val : ℕ)
        → Finishes
            (Updated int_mod (λ p. add32 p val) w)
            (no_result (add_int_by_llsc ll sc fuel val) w)
    unfolding add_int_by_llsc
    add_int_by_llsc-Updated val = updated (discarded (fetch_and_add_int_by_llsc-Applied val))

    pub incr_int_by_llsc-Updated :
        Finishes (Updated int_mod (λ p. add32 p 1) w) (no_result (incr_int_by_llsc ll sc fuel) w)
    unfolding incr_int_by_llsc
    incr_int_by_llsc-Updated = add_int_by_llsc-Updated 1

    pub decr_int_by_llsc-Updated :
        Finishes
          (Updated int_mod (λ p. add32 p minus_one) w)
          (no_result (decr_int_by_llsc ll sc fuel) w)
    unfolding decr_int_by_llsc
    decr_int_by_llsc-Updated = add_int_by_llsc-Updated minus_one

    pub swap_int_by_llsc-Applied :
        (val : ℕ)
        → val < int_mod
        → Finishes (Applied int_mod (λ _. val) w) (swap_int_by_llsc ll sc fuel val w)
    unfolding swap_int_by_llsc
    swap_int_by_llsc-Applied val b = llsc_loop-Applied laws (λ _. val) (λ _ _. b) fuel w r h

    -- For any load-link and store-conditional that satisfy their laws, with more fuel than events
    -- ahead and a variable in range: compare-and-swap with a new value in range ends, and either
    -- it returns the old value and has made one write, of the new value in its place, or it
    -- returns another value, which the variable still has, and has written nothing.
    pub cas_int_by_llsc-Swapped :
        (oldv newv : ℕ)
        → newv < int_mod
        → Finishes (Swapped int_mod oldv newv w) (cas_int_by_llsc ll sc fuel oldv newv w)
    unfolding cas_int_by_llsc
    cas_int_by_llsc-Swapped oldv newv b = llsc_loop-Swapped laws oldv newv b fuel w r h

  module _ {m : ℕ} (laws : IsLlsc m ll sc) (r : InRange m w) where
    pub swap_ptr_by_llsc-Applied :
        (val : ℕ) → val < m → Finishes (Applied m (λ _. val) w) (swap_ptr_by_llsc ll sc fuel val w)
    unfolding swap_ptr_by_llsc
    swap_ptr_by_llsc-Applied val b = llsc_loop-Applied laws (λ _. val) (λ _ _. b) fuel w r h

    pub cas_ptr_by_llsc-Swapped :
        (oldv newv : ℕ)
        → newv < m
        → Finishes (Swapped m oldv newv w) (cas_ptr_by_llsc ll sc fuel oldv newv w)
    unfolding cas_ptr_by_llsc
    cas_ptr_by_llsc-Swapped oldv newv b = llsc_loop-Swapped laws oldv newv b fuel w r h
