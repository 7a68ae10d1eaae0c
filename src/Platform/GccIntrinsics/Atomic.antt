-- ===== src/Platform/GccIntrinsics/Atomic.antt =====
-- Every operation of src/primitives/opa_gcc_intrinsics.h keeps its promise.
use open_pa.Base.{inr, inl, Bool-cases, true, ◌≡◌, ◌<◌, length, ℕ, refl}
use open_pa.Cell.{pure, ◌>>=◌, World, Fence}
use open_pa.Primitives.{truth, modulus, WellTyped, Meets, int_mod, perform, Op}
use open_pa.Cell.Laws.{Swapped, Applied, Finishes, InRange}
use open_pa.Emulated.ByCas.{swap_int_by_cas-Applied, swap_ptr_by_cas-Applied, IsCas}
use open_pa.Cell.Actions.{compare_exchange-Swapped, fetch_modify-Applied}
use open_pa.Base.Word.{sub32-lt, sub32, minus_one, add32-lt, add32}
use open_pa.Emulated.{
  decr_int_by_fad, incr_int_by_fai, add_int_by_faa, fetch_and_decr_int_by_faa,
  fetch_and_incr_int_by_faa,
}
use open_pa.Primitives.Derived.{
  tested_after, discarded, updated, store_release-Meets, store-Meets, load_acquire-Meets,
  load-Meets,
}
use open_pa.Platform.GccIntrinsics.{
  store_release_ptr, load_acquire_ptr, store_release_int, load_acquire_int, store_ptr, cas_int,
  cas_ptr, store_int, platform, load_ptr, swap_int, swap_ptr, fetch_and_add_int, load_int,
  decr_and_test_int, Builtins,
}

module _ (b : Builtins) (w : World) where
  faa :
      (val : ℕ)
      → InRange int_mod w
      → Finishes (Applied int_mod (λ p. add32 p val) w) (fetch_and_add_int b val w)
  unfolding fetch_and_add_int
  faa val r =
      rw (b.adds val w)
        (fetch_modify-Applied int_mod w r (λ p. add32 p val) (λ v _. add32-lt v val))

  is_cas_int : IsCas load_int (cas_int b)
  unfolding load_int cas_int
  is_cas_int = record { loads = λ w. refl; exchanges = b.compares }

  is_cas_ptr : IsCas load_ptr (cas_ptr b)
  unfolding load_ptr cas_ptr
  is_cas_ptr = record { loads = λ w. refl; exchanges = b.compares }

  cas :
      (m : ℕ)
      → InRange m w
      → (old new : ℕ) → new < m
      → Finishes (Swapped m old new w) (b.sync_val_compare_and_swap old new w)
  cas m r old new h = rw (b.compares old new w) (compare_exchange-Swapped m w r old new h)

  swap :
      (m : ℕ)
      → InRange m w
      → (val : ℕ) → val < m
      → b.is_swap ≡ true
      → Finishes (Applied m (λ _. val) w) (b.sync_lock_test_and_set val w)
  swap m r val h e = rw (b.swaps e val w) (fetch_modify-Applied m w r (λ _. val) (λ _ _. h))

  swap_int-Applied :
      (fuel : ℕ)
      → length w.ahead < fuel
      → InRange int_mod w
      → (val : ℕ) → val < int_mod
      → Finishes (Applied int_mod (λ _. val) w) (swap_int b fuel val w)
  unfolding swap_int
  swap_int-Applied fuel h r val t = elim (Bool-cases b.is_swap) [
    | inl e ↦ simp e (swap int_mod r val t e)
    | inr e ↦ simp e (swap_int_by_cas-Applied is_cas_int fuel w h r val t)
  ]

  swap_ptr-Applied :
      (m fuel : ℕ)
      → length w.ahead < fuel
      → InRange m w
      → (val : ℕ) → val < m
      → Finishes (Applied m (λ _. val) w) (swap_ptr b fuel val w)
  unfolding swap_ptr
  swap_ptr-Applied m fuel h r val t = elim (Bool-cases b.is_swap) [
    | inl e ↦ simp e (swap m r val t e)
    | inr e ↦ simp e (swap_ptr_by_cas-Applied is_cas_ptr fuel w h m r val t)
  ]

  dat :
      InRange int_mod w
      → Finishes
          (Meets int_mod Op.decr_and_test_int w)
          ((do c ← decr_and_test_int b; pure (truth c)) w)
  unfolding decr_and_test_int
  dat r =
      rw (b.subs 1 w)
        (tested_after (fetch_modify-Applied int_mod w r (λ p. sub32 p 1) (λ v _. sub32-lt v 1)))

module _ (b : Builtins) where
  -- For any builtins that satisfy their laws: a well-typed call of any operation, on a variable in
  -- range, with more fuel than events ahead, ends with the result and the effect that `Meets`
  -- promises, a read-modify-write being one write that replaces the value returned, whatever other
  -- threads write in between.
  pub gcc_intrinsics-Meets :
      (m fuel : ℕ) (op : Op) (w : World)
      → WellTyped m op
      → InRange (modulus m op) w
      → length w.ahead < fuel
      → Finishes (Meets m op w) (perform (platform b fuel) op w)
  unfolding perform platform load_int store_int load_ptr store_ptr load_acquire_int
      store_release_int load_acquire_ptr store_release_ptr fetch_and_incr_int_by_faa
      fetch_and_decr_int_by_faa add_int_by_faa incr_int_by_fai decr_int_by_fad cas_int cas_ptr
  gcc_intrinsics-Meets m fuel Op.load_int w t r h = load-Meets int_mod w r
  gcc_intrinsics-Meets m fuel Op.load_ptr w t r h = load-Meets m w r
  gcc_intrinsics-Meets m fuel Op.load_acquire_int w t r h =
      load_acquire-Meets int_mod w r Fence.sync_lock_test_and_set
  gcc_intrinsics-Meets m fuel Op.load_acquire_ptr w t r h =
      load_acquire-Meets m w r Fence.sync_lock_test_and_set
  gcc_intrinsics-Meets m fuel (Op.store_int v) w t r h = store-Meets int_mod w r v t
  gcc_intrinsics-Meets m fuel (Op.store_ptr v) w t r h = store-Meets m w r v t
  gcc_intrinsics-Meets m fuel (Op.store_release_int v) w t r h =
      store_release-Meets int_mod w r Fence.sync_lock_release v t
  gcc_intrinsics-Meets m fuel (Op.store_release_ptr v) w t r h =
      store_release-Meets m w r Fence.sync_lock_release v t
  gcc_intrinsics-Meets m fuel (Op.add_int v) w t r h = updated (discarded (faa b w v r))
  gcc_intrinsics-Meets m fuel (Op.fetch_and_add_int v) w t r h = faa b w v r
  gcc_intrinsics-Meets m fuel Op.incr_int w t r h = updated (discarded (faa b w 1 r))
  gcc_intrinsics-Meets m fuel Op.decr_int w t r h = updated (discarded (faa b w minus_one r))
  gcc_intrinsics-Meets m fuel Op.decr_and_test_int w t r h = dat b w r
  gcc_intrinsics-Meets m fuel Op.fetch_and_incr_int w t r h = faa b w 1 r
  gcc_intrinsics-Meets m fuel Op.fetch_and_decr_int w t r h = faa b w minus_one r
  gcc_intrinsics-Meets m fuel (Op.cas_int old new) w t r h = cas b w int_mod r old new t
  gcc_intrinsics-Meets m fuel (Op.cas_ptr old new) w t r h = cas b w m r old new t
  gcc_intrinsics-Meets m fuel (Op.swap_int v) w t r h = swap_int-Applied b w fuel h r v t
  gcc_intrinsics-Meets m fuel (Op.swap_ptr v) w t r h = swap_ptr-Applied b w m fuel h r v t
