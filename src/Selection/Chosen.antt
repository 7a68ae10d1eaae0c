-- ===== src/Selection/Chosen.antt =====
-- The header that is included is the first whose macro is defined, and its operations keep their
-- promises.
use open_pa.Base.{
  Bool, ℕ, ◌≡◌, ◌<◌, length, refl, ap, inl, inr, true, false, Bool-cases, Option, none, some, List,
  [], ◌∷◌, ◌++◌,
}
use open_pa.Cell.{World}
use open_pa.Cell.Laws.{Finishes, InRange, mono}
use open_pa.Base.Word.{Size, size_mod}
use open_pa.Primitives.{Compares, Primitives, Op, perform, Meets, WellTyped, modulus}
use open_pa.Primitives.Reference.{effect, result, Meets-reference}
use open_pa.Platform
use open_pa.Platform.Ppc.Atomic.{ppc-Meets}
use open_pa.Platform.Arm.Atomic.{arm-Meets}
use open_pa.Platform.GccIntrinsics.Atomic.{gcc_intrinsics-Meets}
use open_pa.Platform.X86.Atomic.{x86-Meets}
use open_pa.Platform.PentiumThree.{p3-Meets}
use open_pa.Platform.Sun.Atomic.{sun-Meets}
use open_pa.Platform.Nt.Atomic.{nt-Meets}
use open_pa.Platform.Stdatomic.Atomic.{stdatomic-Meets}
use open_pa.Platform.Sicortex.Atomic.{sicortex-Meets}
use open_pa.Selection.{Config, Header, defined, tests, include_first, included}

abbrev NoneDefined : Config → List Header → Type 0
NoneDefined c [] = Unit
NoneDefined c (h ∷ hs) = (defined c h ≡ false) × NoneDefined c hs

-- `h` stands in the list, its macro is defined, and none before it is.
abbrev IsFirst : Config → Header → List Header → Type 0
IsFirst c h hs =
    (before after : List Header) × (hs ≡ before ++ h ∷ after)
    × (defined c h ≡ true)
    × NoneDefined c before

abbrev Includes : Config → List Header → Option Header → Type 0
Includes c hs none = NoneDefined c hs
Includes c hs (some h) = IsFirst c h hs

later :
    (c : Config) (g : Header) (hs : List Header) (o : Option Header)
    → defined c g ≡ false
    → Includes c hs o
    → Includes c (g ∷ hs) o
later c g hs none n i = (n, i)
later c g hs (some h) n (b, a, e, d, l) = (g ∷ b, a, ap (λ l. g ∷ l) e, d, (n, l))

include_first-Includes : (c : Config) (hs : List Header) → Includes c hs (include_first c hs)
unfolding include_first
include_first-Includes c [] = tt
include_first-Includes c (h ∷ hs) = elim (Bool-cases (defined c h)) [
  | inl e ↦ rw e ([], hs, refl, e, tt)
  | inr e ↦ rw e (later c h hs (include_first c hs) e (include_first-Includes c hs))
]

included-Includes : (c : Config) → Includes c tests (included c)
unfolding included
included-Includes c = include_first-Includes c tests

-- What the build finds on the machine: the size of a pointer, OPA_SIZEOF_VOID_P, and the instructions,
-- intrinsics and library functions.
pub record Machine : Type 0 where
  pub pointer_size : Size
  pub ppc : Platform.Ppc.Instructions
  pub arm : Platform.Arm.Instructions
  pub x86 : Platform.X86.Instructions
  pub sicortex : Platform.Sicortex.Instructions
  pub builtins : Platform.GccIntrinsics.Builtins
  pub sun : Platform.Sun.AtomicOps
  pub nt : Platform.Nt.Intrinsics

-- The operations of a header, for a bound on the rounds of its loops. Those of the lock are not one
-- thread's, and the Itanium header lacks some.
abbrev pub provides : Machine → ℕ → Header → Option Primitives
provides m fuel Header.unsafe = some Platform.Unsafe.platform
provides m fuel Header.c11_atomics = some Platform.Stdatomic.platform
provides m fuel Header.gcc_ppc = some (Platform.Ppc.platform m.ppc m.pointer_size fuel)
provides m fuel Header.gcc_arm = some (Platform.Arm.platform m.arm m.pointer_size fuel)
provides m fuel Header.gcc_intel_32_64 = some (Platform.X86.platform m.x86 fuel)
provides m fuel Header.gcc_intel_32_64_p3 = some (Platform.PentiumThree.platform m.x86 fuel)
provides m fuel Header.gcc_ia64 = none
provides m fuel Header.gcc_sicortex =
    some (Platform.Sicortex.platform m.sicortex fuel m.pointer_size)
provides m fuel Header.gcc_intrinsics = some (Platform.GccIntrinsics.platform m.builtins fuel)
provides m fuel Header.sun_atomic_ops = some (Platform.Sun.platform m.sun fuel)
provides m fuel Header.nt_intrinsics = some (Platform.Nt.platform m.nt m.pointer_size fuel)
provides m fuel Header.by_lock = none

-- The headers whose operations are atomic without a lock, and all there.
abbrev pub IsAtomic : Header → Type 0
IsAtomic Header.unsafe = ⊥
IsAtomic Header.gcc_ia64 = ⊥
IsAtomic Header.by_lock = ⊥
IsAtomic _ = Unit

-- The call ends and keeps its promise.
abbrev KeepsPromise : ℕ → Op → World → Option Primitives → Type 0
KeepsPromise m op w none = ⊥
KeepsPromise m op w (some p) = Finishes (Meets m op w) (perform p op w)

-- It has, too, the effect and the result of the reference semantics on some value of the variable.
abbrev pub Keeps : ℕ → Op → World → Option Primitives → Type 0
Keeps m op w none = ⊥
Keeps m op w (some p) =
    Finishes
      (λ r w'. Meets m op w r w' × ((prev : ℕ) × (r ≡ result op prev) × (w'.cell ≡ effect op prev)))
      (perform p op w)

refer :
    (m : ℕ) (op : Op) (w : World) (o : Option Primitives) → KeepsPromise m op w o → Keeps m op w o
refer m op w none k = k
refer m op w (some p) k = mono k λ r w' h. (h, Meets-reference m op w r w' h)

-- The modulus of the machine's pointers.
abbrev pub pointer_mod : Machine → ℕ
pointer_mod machine = size_mod machine.pointer_size

module _ (machine : Machine) (fuel : ℕ) (op : Op) (w : World)
    (t : WellTyped (pointer_mod machine) op) (c : Compares (pointer_mod machine) op)
    (r : InRange (modulus (pointer_mod machine) op) w) (f : length w.ahead < fuel) where
  header-Keeps :
      (h : Header) → IsAtomic h → KeepsPromise (pointer_mod machine) op w (provides machine fuel h)
  header-Keeps Header.unsafe a = absurd a
  header-Keeps Header.c11_atomics a = stdatomic-Meets (pointer_mod machine) op w t r
  header-Keeps Header.gcc_ppc a = ppc-Meets machine.ppc machine.pointer_size fuel op w t r f
  header-Keeps Header.gcc_arm a = arm-Meets machine.arm machine.pointer_size fuel op w t r f
  header-Keeps Header.gcc_intel_32_64 a =
      x86-Meets machine.x86 (pointer_mod machine) fuel op w t r f
  header-Keeps Header.gcc_intel_32_64_p3 a =
      p3-Meets machine.x86 fuel (pointer_mod machine) op w t r f
  header-Keeps Header.gcc_ia64 a = absurd a
  header-Keeps Header.gcc_sicortex a =
      sicortex-Meets machine.sicortex machine.pointer_size fuel op w t r f
  header-Keeps Header.gcc_intrinsics a =
      gcc_intrinsics-Meets machine.builtins (pointer_mod machine) fuel op w t r f
  header-Keeps Header.sun_atomic_ops a = sun-Meets machine.sun (pointer_mod machine) fuel op w t r f
  header-Keeps Header.nt_intrinsics a = nt-Meets machine.nt machine.pointer_size fuel op w t c r f
  header-Keeps Header.by_lock a = absurd a

abbrev provided : Machine → ℕ → Option Header → Option Primitives
provided machine fuel none = none
provided machine fuel (some h) = provides machine fuel h

-- The operations that a program gets.
abbrev pub chosen : Config → Machine → ℕ → Option Primitives
chosen c machine fuel = provided machine fuel (included c)

-- No macro is defined.
undefined : (c : Config) (h : Header) → NoneDefined c tests → defined c h ≡ false
undefined c Header.unsafe n = n.0
undefined c Header.c11_atomics n = n.1.0
undefined c Header.gcc_ppc n = n.1.1.0
undefined c Header.gcc_arm n = n.1.1.1.0
undefined c Header.gcc_intel_32_64 n = n.1.1.1.1.0
undefined c Header.gcc_intel_32_64_p3 n = n.1.1.1.1.1.0
undefined c Header.gcc_ia64 n = n.1.1.1.1.1.1.0
undefined c Header.gcc_sicortex n = n.1.1.1.1.1.1.1.0
undefined c Header.gcc_intrinsics n = n.1.1.1.1.1.1.1.1.0
undefined c Header.sun_atomic_ops n = n.1.1.1.1.1.1.1.1.1.0
undefined c Header.nt_intrinsics n = n.1.1.1.1.1.1.1.1.1.1.0
undefined c Header.by_lock n = n.1.1.1.1.1.1.1.1.1.1.1.0

-- The build asks neither for the unsafe operations nor for those under a lock, and is not for Itanium.
pub record AsksForAtomic (c : Config) : Type 0 where
  pub safe : c.use_unsafe_primitives ≡ false
  pub no_ia64 : c.have_gcc_and_ia64_asm ≡ false
  pub no_lock : c.use_lock_based_primitives ≡ false

true-false : {b : Bool} → b ≡ true → b ≡ false → ⊥
true-false e f = cc

defined-IsAtomic : (c : Config) (h : Header) → AsksForAtomic c → defined c h ≡ true → IsAtomic h
defined-IsAtomic c Header.unsafe a d = true-false d a.safe
defined-IsAtomic c Header.c11_atomics a d = tt
defined-IsAtomic c Header.gcc_ppc a d = tt
defined-IsAtomic c Header.gcc_arm a d = tt
defined-IsAtomic c Header.gcc_intel_32_64 a d = tt
defined-IsAtomic c Header.gcc_intel_32_64_p3 a d = tt
defined-IsAtomic c Header.gcc_ia64 a d = true-false d a.no_ia64
defined-IsAtomic c Header.gcc_sicortex a d = tt
defined-IsAtomic c Header.gcc_intrinsics a d = tt
defined-IsAtomic c Header.sun_atomic_ops a d = tt
defined-IsAtomic c Header.nt_intrinsics a d = tt
defined-IsAtomic c Header.by_lock a d = true-false d a.no_lock

module _ (c : Config) (h : Header) (machine : Machine) (fuel : ℕ) (op : Op) (w : World) where
  included_so :
      (o : Option Header)
      → Includes c tests o
      → defined c h ≡ true
      → AsksForAtomic c
      → WellTyped (pointer_mod machine) op
      → Compares (pointer_mod machine) op
      → InRange (modulus (pointer_mod machine) op) w
      → length w.ahead < fuel
      → Keeps (pointer_mod machine) op w (provided machine fuel o)
  included_so none n d a t k r f = absurd (true-false d (undefined c h n))
  included_so (some g) (_, _, _, d', _) d a t k r f =
      refer (pointer_mod machine) op w (provides machine fuel g)
        (header-Keeps machine fuel op w t k r f g (defined-IsAtomic c g a d'))

  -- If some macro is defined, but neither those for the unsafe operations and for those under a lock, nor
  -- that for Itanium: for any instructions, intrinsics and library functions that satisfy their laws, and
  -- pointers of 4 or of 8 bytes, a well-typed call of any operation that the program gets, the value compared
  -- with included, on a variable in range, with more fuel than
  -- events ahead, ends with the result and the effect that `Meets` promises, which are the result and the
  -- effect of the reference semantics on some value of the variable.
  pub included-Keeps :
      defined c h ≡ true
      → AsksForAtomic c
      → WellTyped (pointer_mod machine) op
      → Compares (pointer_mod machine) op
      → InRange (modulus (pointer_mod machine) op) w
      → length w.ahead < fuel
      → Keeps (pointer_mod machine) op w (chosen c machine fuel)
  included-Keeps = included_so (included c) (included-Includes c)
