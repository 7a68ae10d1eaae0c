-- ===== src/Platform/Nt/Atomic.antt =====
-- Every operation of src/primitives/opa_nt_intrinsics.h keeps its promise.
use open_pa.Base.{arith, ◌≡◌, ◌^◌, length, ◌<◌, ℕ}
use open_pa.Cell.{fetch_modify, World, Fence}
use open_pa.Primitives.{Compares, Meets, modulus, WellTyped, int_mod, perform, Op}
use open_pa.Cell.Laws.{Applied-cong, mono, Applied, Swapped, Finishes, InRange}
use open_pa.Base.Word.{sub32-one, sub32-lt, add32-lt, minus_one, sub32, add32}
use open_pa.Cell.Actions.{compare_exchange-Swapped, fetch_modify-Applied}
use open_pa.Emulated.{fetch_and_decr_int_by_faa, fetch_and_incr_int_by_faa}
use open_pa.Primitives.Derived.{
  tested_after, discarded_new, discarded, updated, store_release-Meets, store-Meets,
  load_acquire-Meets, load-Meets,
}
use open_pa.Base.Word.{Size, bytes_4, bytes_8, size_mod}
use open_pa.Platform.Nt.{
  to_long, to_int64, swap_int, cas_int, fetch_and_add_int, decr_and_test_int, decr_int, incr_int,
  add_int, store_release_ptr, load_acquire_ptr, store_release_int, load_acquire_int, store_ptr,
  load_ptr, store_int, load_int, platform, swap_ptr, cas_ptr, Intrinsics,
}

-- A cast to the same width changes nothing.
to_long_same : (v : ℕ) → v < 2 ^ 32 → to_long v ≡ v
unfolding to_long
to_long_same v h = omega arith

to_int64_same : (v : ℕ) → v < 2 ^ 64 → to_int64 v ≡ v
unfolding to_int64
to_int64_same v h = omega arith

module _ (w : World) where
  faa :
      (val : ℕ)
      → InRange int_mod w
      → Finishes (Applied int_mod (λ p. add32 p val) w) (fetch_modify (λ p. add32 p val) w)
  faa val r = fetch_modify-Applied int_mod w r (λ p. add32 p val) (λ v _. add32-lt v val)

  sub_one :
      InRange int_mod w
      → Finishes (Applied int_mod (λ p. sub32 p 1) w) (fetch_modify (λ p. sub32 p 1) w)
  sub_one r = fetch_modify-Applied int_mod w r (λ p. sub32 p 1) (λ v _. sub32-lt v 1)

  decr :
      InRange int_mod w
      → Finishes (Applied int_mod (λ p. add32 p minus_one) w) (fetch_modify (λ p. sub32 p 1) w)
  decr r = mono (sub_one r) λ p w' a. Applied-cong (sub32-one p) a

  put_in :
      (m : ℕ)
      → InRange m w
      → (val : ℕ) → val < m
      → Finishes (Applied m (λ _. val) w) (fetch_modify (λ _. val) w)
  put_in m r val h = fetch_modify-Applied m w r (λ _. val) (λ _ _. h)

module _ (nt : Intrinsics) (w : World) where
  xadd :
      (val : ℕ)
      → InRange int_mod w
      → Finishes (Applied int_mod (λ p. add32 p val) w) (nt.exchange_add val w)
  xadd val r = rw (nt.adds val w) (faa w val r)

  cas_ptr-Swapped :
      (size : Size) (old new : ℕ)
      → InRange (size_mod size) w
      → new < size_mod size
      → old < size_mod size
      → Finishes (Swapped (size_mod size) old new w) (cas_ptr nt size old new w)
  unfolding cas_ptr
  cas_ptr-Swapped bytes_4 old new r h k =
      rw (to_long_same old k, to_long_same new h, nt.compares32 new old w h k r)
        (compare_exchange-Swapped (2 ^ 32) w r old new h)
  cas_ptr-Swapped bytes_8 old new r h k =
      rw (to_int64_same old k, to_int64_same new h, nt.compares64 new old w h k r)
        (compare_exchange-Swapped (2 ^ 64) w r old new h)

  swap_ptr-Applied :
      (size : Size) (val : ℕ)
      → InRange (size_mod size) w
      → val < size_mod size
      → Finishes (Applied (size_mod size) (λ _. val) w) (swap_ptr nt size val w)
  unfolding swap_ptr
  swap_ptr-Applied bytes_4 val r h =
      rw (to_long_same val h, nt.swaps32 val w h r) (put_in w (2 ^ 32) r val h)
  swap_ptr-Applied bytes_8 val r h =
      rw (to_int64_same val h, nt.swaps64 val w h r) (put_in w (2 ^ 64) r val h)

module _ (nt : Intrinsics) where
  -- For any intrinsics that satisfy their laws, and pointers of 4 or of 8 bytes: a well-typed call of any
  -- operation, the value compared with included, on a variable in range, with more fuel than events ahead, ends with the result and the effect that `Meets`
  -- promises, a read-modify-write being one write that replaces the value returned, whatever other
  -- threads write in between.
  pub nt-Meets :
      (size : Size) (fuel : ℕ) (op : Op) (w : World)
      → WellTyped (size_mod size) op
      → Compares (size_mod size) op
      → InRange (modulus (size_mod size) op) w
      → length w.ahead < fuel
      → Finishes (Meets (size_mod size) op w) (perform (platform nt size fuel) op w)
  unfolding perform platform load_int store_int load_ptr store_ptr load_acquire_int
      store_release_int load_acquire_ptr store_release_ptr add_int incr_int decr_int
      decr_and_test_int fetch_and_add_int fetch_and_incr_int_by_faa fetch_and_decr_int_by_faa
      cas_int swap_int
  nt-Meets size fuel Op.load_int w t c r h = load-Meets int_mod w r
  nt-Meets size fuel Op.load_ptr w t c r h = load-Meets (size_mod size) w r
  nt-Meets size fuel Op.load_acquire_int w t c r h =
      load_acquire-Meets int_mod w r Fence.nt_read_write
  nt-Meets size fuel Op.load_acquire_ptr w t c r h =
      load_acquire-Meets (size_mod size) w r Fence.nt_read_write
  nt-Meets size fuel (Op.store_int v) w t c r h = store-Meets int_mod w r v t
  nt-Meets size fuel (Op.store_ptr v) w t c r h = store-Meets (size_mod size) w r v t
  nt-Meets size fuel (Op.store_release_int v) w t c r h =
      store_release-Meets int_mod w r Fence.nt_read_write v t
  nt-Meets size fuel (Op.store_release_ptr v) w t c r h =
      store_release-Meets (size_mod size) w r Fence.nt_read_write v t
  nt-Meets size fuel (Op.add_int v) w t c r h = updated (discarded (xadd nt w v r))
  nt-Meets size fuel (Op.fetch_and_add_int v) w t c r h = xadd nt w v r
  nt-Meets size fuel Op.incr_int w t c r h =
      updated (rw (nt.incs w) (discarded_new (λ p. add32 p 1) (faa w 1 r)))
  nt-Meets size fuel Op.decr_int w t c r h =
      updated (rw (nt.decs w) (discarded_new (λ p. sub32 p 1) (decr w r)))
  nt-Meets size fuel Op.decr_and_test_int w t c r h = rw (nt.decs w) (tested_after (sub_one w r))
  nt-Meets size fuel Op.fetch_and_incr_int w t c r h = xadd nt w 1 r
  nt-Meets size fuel Op.fetch_and_decr_int w t c r h = xadd nt w minus_one r
  nt-Meets size fuel (Op.cas_int old new) w t c r h =
      rw (nt.compares32 new old w t c r) (compare_exchange-Swapped int_mod w r old new t)
  nt-Meets size fuel (Op.cas_ptr old new) w t c r h = cas_ptr-Swapped nt w size old new r t c
  nt-Meets size fuel (Op.swap_int v) w t c r h = rw (nt.swaps32 v w t r) (put_in w int_mod r v t)
  nt-Meets size fuel (Op.swap_ptr v) w t c r h = swap_ptr-Applied nt w size v r t
