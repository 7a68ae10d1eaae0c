-- ===== src/Platform/PentiumThree.antt =====
-- src/primitives/opa_gcc_intel_32_64_p3.h with opa_gcc_intel_32_64_p3barrier.h: the operations of the
-- other x86 processors, and a full barrier without `mfence`.
use open_pa.Base.{ℕ, ◌≡◌, ◌<◌, length, refl, subst, sym}
use open_pa.Cell.{World, M, Fence, barrier}
use open_pa.Cell.Laws.{Finishes, InRange}
use open_pa.Primitives.{Primitives, Op, perform, Meets, WellTyped, modulus}
use open_pa.Platform.X86
use open_pa.Platform.X86.Atomic.{x86-Meets}

unfoldable pub compiler_barrier : M (Unit {0})
compiler_barrier = barrier Fence.compiler

unfoldable pub read_write_barrier : M (Unit {0})
read_write_barrier = barrier Fence.locked_or

unfoldable pub platform : X86.Instructions → ℕ → Primitives
platform isa fuel = record (X86.platform isa fuel) {
  compiler_barrier = compiler_barrier;
  write_barrier = compiler_barrier;
  read_barrier = compiler_barrier;
  read_write_barrier = read_write_barrier;
}

module _ (isa : X86.Instructions) (fuel : ℕ) where
  same_operations : (op : Op) → perform (platform isa fuel) op ≡ perform (X86.platform isa fuel) op
  unfolding perform platform
  same_operations Op.load_int = refl
  same_operations Op.load_ptr = refl
  same_operations Op.load_acquire_int = refl
  same_operations Op.load_acquire_ptr = refl
  same_operations (Op.store_int v) = refl
  same_operations (Op.store_ptr v) = refl
  same_operations (Op.store_release_int v) = refl
  same_operations (Op.store_release_ptr v) = refl
  same_operations (Op.add_int v) = refl
  same_operations (Op.fetch_and_add_int v) = refl
  same_operations Op.incr_int = refl
  same_operations Op.decr_int = refl
  same_operations Op.decr_and_test_int = refl
  same_operations Op.fetch_and_incr_int = refl
  same_operations Op.fetch_and_decr_int = refl
  same_operations (Op.cas_int old new) = refl
  same_operations (Op.cas_ptr old new) = refl
  same_operations (Op.swap_int v) = refl
  same_operations (Op.swap_ptr v) = refl

  -- For any instructions that satisfy their laws: a well-typed call of any operation, on a variable in
  -- range, with more fuel than events ahead, ends with the result and the effect that `Meets`
  -- promises, whatever other threads write in between.
  pub p3-Meets :
      (m : ℕ) (op : Op) (w : World)
      → WellTyped m op
      → InRange (modulus m op) w
      → length w.ahead < fuel
      → Finishes (Meets m op w) (perform (platform isa fuel) op w)
  p3-Meets m op w t r h =
      subst (λ f. Finishes (Meets m op w) (f w)) (sym (same_operations op))
        (x86-Meets isa m fuel op w t r h)
