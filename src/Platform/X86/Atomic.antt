-- ===== src/Platform/X86/Atomic.antt =====
-- Every operation of src/primitives/opa_gcc_intel_32_64_ops.h keeps its promise.
use open_pa.Base.{length, ap, ◌<◌, ℕ}
use open_pa.Cell.{◌>>◌, fetch_modify, pure, ◌>>=◌, World, Fence}
use open_pa.Primitives.{modulus, WellTyped, truth, Meets, int_mod, perform, Op}
use open_pa.Cell.Laws.{finishes, bind, Swapped, Applied, Finishes, InRange}
use open_pa.Primitives.Derived.{
  discarded, updated, store_release-Meets, store-Meets, load_acquire-Meets, load-Meets, returned,
  flagged, Decremented,
}
use open_pa.Base.Word.{sub32-lt, add32-lt, sub32, minus_one, add32}
use open_pa.Cell.Actions.{compare_exchange-Swapped, fetch_modify-Applied}
use open_pa.Emulated.{fetch_and_decr_int_by_faa, fetch_and_incr_int_by_faa}
use open_pa.Platform.X86.{
  swap_ptr, swap_int, cas_ptr, cas_int, fetch_and_add_int, decr_int, incr_int, add_int,
  store_release_ptr, load_acquire_ptr, store_release_int, load_acquire_int, store_ptr, load_ptr,
  store_int, load_int, platform, decr_and_test_int, Instructions,
}

module _ (isa : Instructions) (w : World) where
  faa :
      (val : ℕ)
      → InRange int_mod w
      → Finishes (Applied int_mod (λ p. add32 p val) w) (fetch_modify (λ p. add32 p val) w)
  faa val r = fetch_modify-Applied int_mod w r (λ p. add32 p val) (λ v _. add32-lt v val)

  xadd :
      (val : ℕ)
      → InRange int_mod w
      → Finishes (Applied int_mod (λ p. add32 p val) w) (isa.lock_xadd val w)
  xadd val r = rw (isa.xadds val w) (faa val r)

  lock_dec-flag : InRange int_mod w → Finishes (Decremented w) (isa.lock_dec w)
  lock_dec-flag r =
      rw (isa.decs w)
        (flagged (fetch_modify-Applied int_mod w r (λ p. sub32 p 1) (λ v _. sub32-lt v 1)))

  dec :
      InRange int_mod w
      → Finishes {A = Unit {0}}
          (λ _ w'. (prev : ℕ) × Applied int_mod (λ p. add32 p minus_one) w prev w')
          ((isa.lock_dec >> pure tt) w)
  dec r = bind (lock_dec-flag r) λ z w' (prev, e, a). finishes (prev, a)

  cas :
      (m : ℕ)
      → InRange m w
      → (old new : ℕ) → new < m
      → Finishes (Swapped m old new w) ((do prev ← isa.lock_cmpxchg old new; pure prev) w)
  cas m r old new h =
      rw (isa.compares old new w)
        (bind (compare_exchange-Swapped m w r old new h) λ v w' s. finishes s)

  swap :
      (m : ℕ)
      → InRange m w
      → (val : ℕ) → val < m
      → Finishes (Applied m (λ _. val) w) (isa.xchg val w)
  swap m r val h = rw (isa.swaps val w) (fetch_modify-Applied m w r (λ _. val) (λ _ _. h))

  dat :
      InRange int_mod w
      → Finishes
          (Meets int_mod Op.decr_and_test_int w)
          ((do c ← decr_and_test_int isa; pure (truth c)) w)
  unfolding decr_and_test_int
  dat r = bind (returned (lock_dec-flag r)) λ z w' (prev, e, a). finishes (prev, ap truth e, a)

module _ (isa : Instructions) where
  -- For any instructions that satisfy their laws: a well-typed call of any operation, on a
  -- variable in range, with more fuel than events ahead, ends with the result and the effect that
  -- `Meets` promises, a read-modify-write being one write that replaces the value returned,
  -- whatever other threads write in between.
  pub x86-Meets :
      (m fuel : ℕ) (op : Op) (w : World)
      → WellTyped m op
      → InRange (modulus m op) w
      → length w.ahead < fuel
      → Finishes (Meets m op w) (perform (platform isa fuel) op w)
  unfolding perform platform load_int store_int load_ptr store_ptr load_acquire_int
      store_release_int load_acquire_ptr store_release_ptr fetch_and_incr_int_by_faa
      fetch_and_decr_int_by_faa add_int incr_int decr_int fetch_and_add_int cas_int cas_ptr swap_int
      swap_ptr
  x86-Meets m fuel Op.load_int w t r h = load-Meets int_mod w r
  x86-Meets m fuel Op.load_ptr w t r h = load-Meets m w r
  x86-Meets m fuel Op.load_acquire_int w t r h = load_acquire-Meets int_mod w r Fence.compiler
  x86-Meets m fuel Op.load_acquire_ptr w t r h = load_acquire-Meets m w r Fence.compiler
  x86-Meets m fuel (Op.store_int v) w t r h = store-Meets int_mod w r v t
  x86-Meets m fuel (Op.store_ptr v) w t r h = store-Meets m w r v t
  x86-Meets m fuel (Op.store_release_int v) w t r h =
      store_release-Meets int_mod w r Fence.compiler v t
  x86-Meets m fuel (Op.store_release_ptr v) w t r h = store_release-Meets m w r Fence.compiler v t
  x86-Meets m fuel (Op.add_int v) w t r h = updated (rw (isa.adds v w) (discarded (faa isa w v r)))
  x86-Meets m fuel (Op.fetch_and_add_int v) w t r h = xadd isa w v r
  x86-Meets m fuel Op.incr_int w t r h = updated (rw (isa.incs w) (discarded (faa isa w 1 r)))
  x86-Meets m fuel Op.decr_int w t r h = updated (dec isa w r)
  x86-Meets m fuel Op.decr_and_test_int w t r h = dat isa w r
  x86-Meets m fuel Op.fetch_and_incr_int w t r h = xadd isa w 1 r
  x86-Meets m fuel Op.fetch_and_decr_int w t r h = xadd isa w minus_one r
  x86-Meets m fuel (Op.cas_int old new) w t r h = cas isa w int_mod r old new t
  x86-Meets m fuel (Op.cas_ptr old new) w t r h = cas isa w m r old new t
  x86-Meets m fuel (Op.swap_int v) w t r h = swap isa w int_mod r v t
  x86-Meets m fuel (Op.swap_ptr v) w t r h = swap isa w m r v t
