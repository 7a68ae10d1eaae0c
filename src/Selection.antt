-- ===== src/Selection.antt =====
-- src/opa_primitives.h: which header of src/primitives is included, by the macros that the build or
-- the user defines.
pub mod Chosen
use open_pa.Base.{Bool, if◌then◌else◌, Option, none, some, List, [], ◌∷◌}

-- The macros, true where defined.
pub record Config : Type 0 where
  pub use_unsafe_primitives : Bool
  pub have_c11_atomics : Bool
  pub have_gcc_and_powerpc_asm : Bool
  pub have_gcc_and_arm_asm : Bool
  pub have_gcc_x86_32_64 : Bool
  pub have_gcc_x86_32_64_p3 : Bool
  pub have_gcc_and_ia64_asm : Bool
  pub have_gcc_and_sicortex_asm : Bool
  pub have_gcc_intrinsic_atomics : Bool
  pub have_sun_atomic_ops : Bool
  pub have_nt_intrinsics : Bool
  pub use_lock_based_primitives : Bool

pub data Header : Type 0 where
  unsafe c11_atomics gcc_ppc gcc_arm : Header
  gcc_intel_32_64 gcc_intel_32_64_p3 gcc_ia64 gcc_sicortex : Header
  gcc_intrinsics sun_atomic_ops nt_intrinsics by_lock : Header

-- The macro that an `#if` or `#elif` tests, and the header that it includes.
abbrev pub defined : Config → Header → Bool
defined c unsafe = c.use_unsafe_primitives
defined c c11_atomics = c.have_c11_atomics
defined c gcc_ppc = c.have_gcc_and_powerpc_asm
defined c gcc_arm = c.have_gcc_and_arm_asm
defined c gcc_intel_32_64 = c.have_gcc_x86_32_64
defined c gcc_intel_32_64_p3 = c.have_gcc_x86_32_64_p3
defined c gcc_ia64 = c.have_gcc_and_ia64_asm
defined c gcc_sicortex = c.have_gcc_and_sicortex_asm
defined c gcc_intrinsics = c.have_gcc_intrinsic_atomics
defined c sun_atomic_ops = c.have_sun_atomic_ops
defined c nt_intrinsics = c.have_nt_intrinsics
defined c by_lock = c.use_lock_based_primitives

-- The tests in their order.
abbrev pub tests : List Header
tests =
    unsafe ∷ c11_atomics ∷ gcc_ppc ∷ gcc_arm ∷ gcc_intel_32_64 ∷ gcc_intel_32_64_p3 ∷ gcc_ia64
    ∷ gcc_sicortex ∷ gcc_intrinsics ∷ sun_atomic_ops ∷ nt_intrinsics ∷ by_lock ∷ []

-- `none` is the `#error`.
unfoldable pub include_first : Config → List Header → Option Header
include_first c [] = none
include_first c (h ∷ hs) = if defined c h then some h else include_first c hs

unfoldable pub included : Config → Option Header
unfolding include_first
included c = include_first c tests
