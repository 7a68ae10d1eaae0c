-- ===== src/Platform/Sun/Atomic.antt =====
-- Every operation of src/primitives/opa_sun_atomic_ops.h keeps its promise.
use open_pa.Base.{length, ◌<◌, ℕ}
use open_pa.Cell.{compare_exchange, fetch_modify, World, Fence}
use open_pa.Primitives.{Meets, modulus, WellTyped, int_mod, perform, Op}
use open_pa.Cell.Laws.{Applied-cong, mono, Applied, Swapped, Finishes, InRange}
use open_pa.Base.Word.{
  add32-sub32_one, sub32-add32, sub32-one, sub32-lt, add32-lt, minus_one, sub32, add32,
}
use open_pa.Cell.Actions.{compare_exchange-Swapped, fetch_modify-Applied}
use open_pa.Primitives.Derived.{
  tested_after, recovered, discarded, updated, store_release-Meets, store-Meets, load_acquire-Meets,
  load-Meets,
}
use open_pa.Platform.Sun.{
  swap_ptr, swap_int, cas_ptr, cas_int, fetch_and_decr_int, fetch_and_incr_int, fetch_and_add_int,
  decr_and_test_int, decr_int, incr_int, add_int, store_release_ptr, load_acquire_ptr,
  store_release_int, load_acquire_int, store_ptr, load_ptr, store_int, load_int, platform,
  AtomicOps,
}

module _ (w : World) where
  faa :
      (val : ℕ)
      → InRange int_mod w
      → Finishes (Applied int_mod (λ p. add32 p val) w) (fetch_modify (λ p. add32 p val) w)
  faa val r = fetch_modify-Applied int_mod w r (λ p. add32 p val) (λ v _. add32-lt v val)

  sub_one :
      InRange int_mod w
      → Finishes (Applied int_mod (λ p. sub32 p 1) w) (fetch_modify (λ p. sub32 p 1) w)
  sub_one r = fetch_modify-Applied int_mod w r (λ p. sub32 p 1) (λ v _. sub32-lt v 1)

  decr :
      InRange int_mod w
      → Finishes (Applied int_mod (λ p. add32 p minus_one) w) (fetch_modify (λ p. sub32 p 1) w)
  decr r = mono (sub_one r) λ p w' a. Applied-cong (sub32-one p) a

  put_in :
      (m : ℕ)
      → InRange m w
      → (val : ℕ) → val < m
      → Finishes (Applied m (λ _. val) w) (fetch_modify (λ _. val) w)
  put_in m r val h = fetch_modify-Applied m w r (λ _. val) (λ _ _. h)

  cas :
      (m : ℕ)
      → InRange m w
      → (old new : ℕ) → new < m
      → Finishes (Swapped m old new w) (compare_exchange old new w)
  cas m r old new h = compare_exchange-Swapped m w r old new h

module _ (lib : AtomicOps) where
  -- For any library functions that satisfy their laws: a well-typed call of any operation, on a
  -- variable in range, with more fuel than events ahead, ends with the result and the effect that
  -- `Meets` promises, a read-modify-write being one write that replaces the value returned,
  -- whatever other threads write in between.
  pub sun-Meets :
      (m fuel : ℕ) (op : Op) (w : World)
      → WellTyped m op
      → InRange (modulus m op) w
      → length w.ahead < fuel
      → Finishes (Meets m op w) (perform (platform lib fuel) op w)
  unfolding perform platform load_int store_int load_ptr store_ptr load_acquire_int
      store_release_int load_acquire_ptr store_release_ptr add_int incr_int decr_int
      decr_and_test_int fetch_and_add_int fetch_and_incr_int fetch_and_decr_int cas_int cas_ptr
      swap_int swap_ptr
  sun-Meets m fuel Op.load_int w t r h = load-Meets int_mod w r
  sun-Meets m fuel Op.load_ptr w t r h = load-Meets m w r
  sun-Meets m fuel Op.load_acquire_int w t r h = load_acquire-Meets int_mod w r Fence.membar_enter
  sun-Meets m fuel Op.load_acquire_ptr w t r h = load_acquire-Meets m w r Fence.membar_enter
  sun-Meets m fuel (Op.store_int v) w t r h = store-Meets int_mod w r v t
  sun-Meets m fuel (Op.store_ptr v) w t r h = store-Meets m w r v t
  sun-Meets m fuel (Op.store_release_int v) w t r h =
      store_release-Meets int_mod w r Fence.membar_exit v t
  sun-Meets m fuel (Op.store_release_ptr v) w t r h =
      store_release-Meets m w r Fence.membar_exit v t
  sun-Meets m fuel (Op.add_int v) w t r h = updated (rw (lib.adds v w) (discarded (faa w v r)))
  sun-Meets m fuel (Op.fetch_and_add_int v) w t r h =
      rw (lib.adds_nv v w) (recovered (λ nv. sub32 nv v) (λ p. sub32-add32 p v) (faa w v r))
  sun-Meets m fuel Op.incr_int w t r h = updated (rw (lib.incs w) (discarded (faa w 1 r)))
  sun-Meets m fuel Op.decr_int w t r h = updated (rw (lib.decs w) (discarded (decr w r)))
  sun-Meets m fuel Op.decr_and_test_int w t r h = rw (lib.decs_nv w) (tested_after (sub_one w r))
  sun-Meets m fuel Op.fetch_and_incr_int w t r h =
      rw (lib.incs_nv w) (recovered (λ nv. sub32 nv 1) (λ p. sub32-add32 p 1) (faa w 1 r))
  sun-Meets m fuel Op.fetch_and_decr_int w t r h = rw (lib.decs_nv w) (
      mono (recovered (λ nv. add32 nv 1) add32-sub32_one (sub_one w r))
        λ p w' a. Applied-cong (sub32-one p) a)
  sun-Meets m fuel (Op.cas_int old new) w t r h =
      rw (lib.compares_int old new w) (cas w int_mod r old new t)
  sun-Meets m fuel (Op.cas_ptr old new) w t r h =
      rw (lib.compares_ptr old new w) (cas w m r old new t)
  sun-Meets m fuel (Op.swap_int v) w t r h = rw (lib.swaps_int v w) (put_in w int_mod r v t)
  sun-Meets m fuel (Op.swap_ptr v) w t r h = rw (lib.swaps_ptr v w) (put_in w m r v t)
