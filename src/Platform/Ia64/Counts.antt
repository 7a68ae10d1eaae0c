-- ===== src/Platform/Ia64/Counts.antt =====
-- What the operations of src/primitives/opa_gcc_ia64.h do.
use open_pa.Base.{ℕ, ◌≡◌, ◌<◌, refl, true}
use open_pa.Base.Word.{add32, add32-lt, minus_one}
use open_pa.Cell.{World, pure, ◌>>=◌}
use open_pa.Cell.Laws.{Finishes, Applied, Swapped, InRange}
use open_pa.Cell.Actions.{fetch_modify-Applied, compare_exchange-Swapped}
use open_pa.Primitives.{int_mod, Meets, Op, truth}
use open_pa.Primitives.Derived.{tested}
use open_pa.Emulated.{
  incr_int_by_faa, decr_int_by_faa, fetch_and_incr_int_by_faa, fetch_and_decr_int_by_faa,
}
use open_pa.Platform.Ia64.{
  Instructions, is_immediate, cas_int, cas_ptr, swap_ptr, decr_and_test_int, fetch_and_add_int,
}

module _ (isa : Instructions) (w : World) where
  immediate :
      (val : ℕ)
      → is_immediate val ≡ true
      → InRange int_mod w
      → Finishes (Applied int_mod (λ p. add32 p val) w) (isa.fetchadd4_rel val w)
  immediate val e r =
      rw (isa.adds val e w)
        (fetch_modify-Applied int_mod w r (λ p. add32 p val) (λ v _. add32-lt v val))

  -- For any instructions that satisfy their laws and a variable in range: the increments and
  -- decrements by the fetch-and-add of any fuel, and decrement-and-test, are atomic and do what they
  -- promise.
  pub counters-Meet :
      (fuel : ℕ)
      → InRange int_mod w
      → Finishes
          (Meets int_mod Op.fetch_and_incr_int w)
          (fetch_and_incr_int_by_faa (fetch_and_add_int isa fuel) w)
        × Finishes
            (Meets int_mod Op.fetch_and_decr_int w)
            (fetch_and_decr_int_by_faa (fetch_and_add_int isa fuel) w)
        × Finishes
            (Applied int_mod (λ p. add32 p 1) w)
            (incr_int_by_faa (fetch_and_add_int isa fuel) w)
        × Finishes
            (Applied int_mod (λ p. add32 p minus_one) w)
            (decr_int_by_faa (fetch_and_add_int isa fuel) w)
        × Finishes
            (Meets int_mod Op.decr_and_test_int w)
            ((do z ← decr_and_test_int isa; pure (truth z)) w)
  unfolding fetch_and_add_int fetch_and_incr_int_by_faa fetch_and_decr_int_by_faa incr_int_by_faa
      decr_int_by_faa decr_and_test_int is_immediate
  counters-Meet fuel r = (
    immediate 1 refl r,
    immediate minus_one refl r,
    immediate 1 refl r,
    immediate minus_one refl r,
    tested (immediate minus_one refl r),
  )

  -- For any instructions that satisfy their laws and a variable in range: the compare-and-swaps of a
  -- new value in range, and the swap of a pointer in range, are atomic and do what they promise.
  pub exchanges-Meet :
      (m old new : ℕ)
      → new < m
      → InRange m w
      → Finishes (Swapped m old new w) (cas_int isa old new w)
        × Finishes (Swapped m old new w) (cas_ptr isa old new w)
        × Finishes (Applied m (λ _. new) w) (swap_ptr isa new w)
  unfolding cas_int cas_ptr swap_ptr
  exchanges-Meet m old new t r = (
    rw (isa.compares4 old new w) (compare_exchange-Swapped m w r old new t),
    rw (isa.compares8 old new w) (compare_exchange-Swapped m w r old new t),
    rw (isa.swaps8 new w) (fetch_modify-Applied m w r (λ _. new) (λ _ _. t)),
  )
