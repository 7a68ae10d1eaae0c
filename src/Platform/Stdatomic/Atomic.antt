-- ===== src/Platform/Stdatomic/Atomic.antt =====
-- Every operation of src/primitives/opa_c11_atomics.h keeps its promise.
use open_pa.Base.{arith, ◌≡◌, ◌<◌, ◌==◌, if◌then◌else◌, ℕ}
use open_pa.Cell.{pure, fetch_modify, ◌>>=◌, World, Fence}
use open_pa.Cell.Laws.{finishes, bind, Swapped, Applied, Finishes, InRange}
use open_pa.Base.Word.{minus_one, add32-lt, add32}
use open_pa.Platform.Stdatomic.{
  swap_ptr, swap_int, cas_ptr, cas_int, fetch_and_decr_int, fetch_and_incr_int, fetch_and_add_int,
  decr_and_test_int, decr_int, incr_int, add_int, store_release_ptr, load_acquire_ptr,
  store_release_int, load_acquire_int, store_ptr, load_ptr, store_int, load_int, platform,
  atomic_compare_exchange_strong_explicit,
}
use open_pa.Cell.Actions.{compare_exchange-Swapped, fetch_modify-Applied}
use open_pa.Primitives.Derived.{
  tested, discarded, updated, store_release-Meets, store-Meets, load_acquire-Meets, load-Meets,
}
use open_pa.Primitives.{Meets, modulus, WellTyped, int_mod, perform, Op}

-- What `*expected` holds is the value found.
comparand-found : (p old : ℕ) → (if p == old then old else p) ≡ p
comparand-found p old = ground arith

module _ (w : World) where
  faa :
      (val : ℕ)
      → InRange int_mod w
      → Finishes (Applied int_mod (λ p. add32 p val) w) (fetch_modify (λ p. add32 p val) w)
  faa val r = fetch_modify-Applied int_mod w r (λ p. add32 p val) (λ v _. add32-lt v val)

  put_in :
      (m : ℕ)
      → InRange m w
      → (val : ℕ) → val < m
      → Finishes (Applied m (λ _. val) w) (fetch_modify (λ _. val) w)
  put_in m r val h = fetch_modify-Applied m w r (λ _. val) (λ _ _. h)

  -- The comparand holds the value found, on success and on failure.
  cas :
      (m : ℕ)
      → InRange m w
      → (old new : ℕ) → new < m
      → Finishes
          (Swapped m old new w)
          ((do r ← atomic_compare_exchange_strong_explicit old new; pure r.1) w)
  cas m r old new h =
      bind
        (bind {Q = λ x w'. Swapped m old new w x.1 w'} (compare_exchange-Swapped m w r old new h)
          λ p w' s. finishes (rw (comparand-found p old) s))
        λ x w' s. finishes s

-- A well-typed call of any operation, on a variable in range, ends with the result and the effect
-- that `Meets` promises, a read-modify-write being one write that replaces the value returned,
-- whatever other threads write in between.
pub stdatomic-Meets :
    (m : ℕ) (op : Op) (w : World)
    → WellTyped m op
    → InRange (modulus m op) w
    → Finishes (Meets m op w) (perform platform op w)
unfolding perform platform load_int store_int load_ptr store_ptr load_acquire_int store_release_int
    load_acquire_ptr store_release_ptr add_int incr_int decr_int decr_and_test_int fetch_and_add_int
    fetch_and_incr_int fetch_and_decr_int cas_int cas_ptr swap_int swap_ptr
stdatomic-Meets m Op.load_int w t r = load-Meets int_mod w r
stdatomic-Meets m Op.load_ptr w t r = load-Meets m w r
stdatomic-Meets m Op.load_acquire_int w t r = load_acquire-Meets int_mod w r Fence.order_acquire
stdatomic-Meets m Op.load_acquire_ptr w t r = load_acquire-Meets m w r Fence.order_acquire
stdatomic-Meets m (Op.store_int v) w t r = store-Meets int_mod w r v t
stdatomic-Meets m (Op.store_ptr v) w t r = store-Meets m w r v t
stdatomic-Meets m (Op.store_release_int v) w t r =
    store_release-Meets int_mod w r Fence.order_release v t
stdatomic-Meets m (Op.store_release_ptr v) w t r = store_release-Meets m w r Fence.order_release v t
stdatomic-Meets m (Op.add_int v) w t r = updated (discarded (faa w v r))
stdatomic-Meets m (Op.fetch_and_add_int v) w t r = faa w v r
stdatomic-Meets m Op.incr_int w t r = updated (discarded (faa w 1 r))
stdatomic-Meets m Op.decr_int w t r = updated (discarded (faa w minus_one r))
stdatomic-Meets m Op.decr_and_test_int w t r = tested (faa w minus_one r)
stdatomic-Meets m Op.fetch_and_incr_int w t r = faa w 1 r
stdatomic-Meets m Op.fetch_and_decr_int w t r = faa w minus_one r
stdatomic-Meets m (Op.cas_int old new) w t r = cas w int_mod r old new t
stdatomic-Meets m (Op.cas_ptr old new) w t r = cas w m r old new t
stdatomic-Meets m (Op.swap_int v) w t r = put_in w int_mod r v t
stdatomic-Meets m (Op.swap_ptr v) w t r = put_in w m r v t
