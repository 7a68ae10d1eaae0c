-- ===== src/Tests/Selected.antt =====
-- The header that a build selects, on a machine with instructions that meet their laws.
use open_pa.Base.{◌≡◌, ◌^◌, true, false, some, refl, arith}
use open_pa.Primitives.{Op}
use open_pa.Selection.{Config, Header, included}
use open_pa.Selection.Chosen.{included-Keeps, AsksForAtomic, Machine, Keeps, chosen, included-Keeps}
use open_pa.Tests.Variable.{busy, busy-InRange}
use open_pa.Tests.Platforms.{ppc, arm, builtins, x86, sun, nt}
use open_pa.Base.Word.{bytes_8}
use open_pa.Tests.Others.{mips}

abbrev machine : Machine
machine = record {
  pointer_size = bytes_8;
  ppc = ppc;
  arm = arm;
  x86 = x86;
  sicortex = mips;
  builtins = builtins;
  sun = sun;
  nt = nt;
}

-- An x86 build with gcc, which finds its intrinsics too.
abbrev gcc_on_x86 : Config
gcc_on_x86 = record {
  use_unsafe_primitives = false;
  have_c11_atomics = false;
  have_gcc_and_powerpc_asm = false;
  have_gcc_and_arm_asm = false;
  have_gcc_x86_32_64 = true;
  have_gcc_x86_32_64_p3 = true;
  have_gcc_and_ia64_asm = false;
  have_gcc_and_sicortex_asm = false;
  have_gcc_intrinsic_atomics = true;
  have_sun_atomic_ops = false;
  have_nt_intrinsics = false;
  use_lock_based_primitives = false;
}

gcc_on_x86-included : included gcc_on_x86 ≡ some Header.gcc_intel_32_64
unfolding included
gcc_on_x86-included = refl

gcc_on_x86-AsksForAtomic : AsksForAtomic gcc_on_x86
gcc_on_x86-AsksForAtomic = record { safe = refl; no_ia64 = refl; no_lock = refl }

included-Keeps_example : Keeps (2 ^ 64) Op.decr_and_test_int busy (chosen gcc_on_x86 machine 4)
included-Keeps_example =
    included-Keeps gcc_on_x86 Header.gcc_intrinsics machine 4 Op.decr_and_test_int busy refl
      gcc_on_x86-AsksForAtomic tt tt busy-InRange (omega arith)
