-- ===== src/Platform/Ppc/Atomic.antt =====
-- Every operation of src/primitives/opa_gcc_ppc.h keeps its promise.
use open_pa.Base.{◌^◌, refl, ◌≡◌, false, true, if◌then◌else◌, ◌∙◌, Bool, ◌∙◌, ℕ, ◌<◌, length}
use open_pa.Cell.{◌>>=◌, done, out_of_fuel, done, pure, and_then, Outcome, World, Fence}
use open_pa.Cell.Actions.{load_link-Linked}
use open_pa.Cell.Laws.{Finishes, InRange}
use open_pa.Base.Word.{Size, bytes_4, bytes_8, size_mod}
use open_pa.Primitives.{Op, perform, Meets, WellTyped, modulus, int_mod}
use open_pa.Primitives.Derived.{
  tested, load-Meets, store-Meets, load_acquire-Meets, store_release-Meets,
}
use open_pa.Emulated.{decr_and_test_int_by_llsc}
use open_pa.Emulated.ByLlsc.{IsLlsc}
use open_pa.Emulated.ByLlsc.Ops
use open_pa.Platform.Ppc.{
  store_release_ptr, load_acquire_ptr, store_release_int, load_acquire_int, store_ptr, load_ptr,
  store_int, Instructions, ll_int, sc_int, ll_ptr, sc_ptr, platform, load_int,
}

-- `beq` on the condition bit gives the answer back.
branch : (o : Outcome Bool) → and_then o (λ eq. if eq then pure true else pure false) ≡ o
branch (done true w) = refl
branch (done false w) = refl
branch out_of_fuel = refl

module _ (isa : Instructions) where
  laws_4 :
      IsLlsc
        (2 ^ 32)
        (isa.lwarx bytes_4)
        (λ val. do eq ← isa.stwcx bytes_4 val; if eq then pure true else pure false)
  laws_4 = record {
    links = λ w r. rw (isa.lwarx_links w r) (load_link-Linked (2 ^ 32) w r);
    stores = λ v w h. branch (isa.stwcx bytes_4 v w) ∙ isa.stwcx_stores v w h;
  }

  laws_8 :
      IsLlsc
        (2 ^ 64)
        (isa.ldarx bytes_8)
        (λ val. do eq ← isa.stdcx bytes_8 val; if eq then pure true else pure false)
  laws_8 = record {
    links = λ w r. rw (isa.ldarx_links w r) (load_link-Linked (2 ^ 64) w r);
    stores = λ v w h. branch (isa.stdcx bytes_8 v w) ∙ isa.stdcx_stores v w h;
  }

  int_laws : IsLlsc int_mod (ll_int isa) (sc_int isa)
  unfolding ll_int sc_int
  int_laws = laws_4

  ptr_laws : (size : Size) → IsLlsc (size_mod size) (ll_ptr isa size) (sc_ptr isa size)
  unfolding ll_ptr sc_ptr
  ptr_laws bytes_4 = laws_4
  ptr_laws bytes_8 = laws_8

  -- For any instructions that satisfy their laws, and pointers of 4 or of 8 bytes: a well-typed call of any operation, on a
  -- variable in range, with more fuel than events ahead, ends with the result and the effect that
  -- `Meets` promises, a read-modify-write being one write that replaces the value returned,
  -- whatever other threads write in between.
  pub ppc-Meets :
      (size : Size) (fuel : ℕ) (op : Op) (w : World)
      → WellTyped (size_mod size) op
      → InRange (modulus (size_mod size) op) w
      → length w.ahead < fuel
      → Finishes (Meets (size_mod size) op w) (perform (platform isa size fuel) op w)
  unfolding perform platform load_int store_int load_ptr store_ptr load_acquire_int
      store_release_int load_acquire_ptr store_release_ptr decr_and_test_int_by_llsc
  ppc-Meets size fuel Op.load_int w t r h = load-Meets int_mod w r
  ppc-Meets size fuel Op.load_ptr w t r h = load-Meets (size_mod size) w r
  ppc-Meets size fuel Op.load_acquire_int w t r h = load_acquire-Meets int_mod w r Fence.lwsync
  ppc-Meets size fuel Op.load_acquire_ptr w t r h =
      load_acquire-Meets (size_mod size) w r Fence.lwsync
  ppc-Meets size fuel (Op.store_int v) w t r h = store-Meets int_mod w r v t
  ppc-Meets size fuel (Op.store_ptr v) w t r h = store-Meets (size_mod size) w r v t
  ppc-Meets size fuel (Op.store_release_int v) w t r h =
      store_release-Meets int_mod w r Fence.lwsync v t
  ppc-Meets size fuel (Op.store_release_ptr v) w t r h =
      store_release-Meets (size_mod size) w r Fence.lwsync v t
  ppc-Meets size fuel (Op.add_int v) w t r h = Ops.add_int_by_llsc-Updated fuel w h int_laws r v
  ppc-Meets size fuel (Op.fetch_and_add_int v) w t r h =
      Ops.fetch_and_add_int_by_llsc-Applied fuel w h int_laws r v
  ppc-Meets size fuel Op.incr_int w t r h = Ops.incr_int_by_llsc-Updated fuel w h int_laws r
  ppc-Meets size fuel Op.decr_int w t r h = Ops.decr_int_by_llsc-Updated fuel w h int_laws r
  ppc-Meets size fuel Op.decr_and_test_int w t r h =
      tested (Ops.fetch_and_decr_int_by_llsc-Applied fuel w h int_laws r)
  ppc-Meets size fuel Op.fetch_and_incr_int w t r h =
      Ops.fetch_and_incr_int_by_llsc-Applied fuel w h int_laws r
  ppc-Meets size fuel Op.fetch_and_decr_int w t r h =
      Ops.fetch_and_decr_int_by_llsc-Applied fuel w h int_laws r
  ppc-Meets size fuel (Op.cas_int old new) w t r h =
      Ops.cas_int_by_llsc-Swapped fuel w h int_laws r old new t
  ppc-Meets size fuel (Op.cas_ptr old new) w t r h =
      Ops.cas_ptr_by_llsc-Swapped fuel w h (ptr_laws size) r old new t
  ppc-Meets size fuel (Op.swap_int v) w t r h = Ops.swap_int_by_llsc-Applied fuel w h int_laws r v t
  ppc-Meets size fuel (Op.swap_ptr v) w t r h =
      Ops.swap_ptr_by_llsc-Applied fuel w h (ptr_laws size) r v t
