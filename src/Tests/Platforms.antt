-- ===== src/Tests/Platforms.antt =====
-- Each platform with instructions or library functions that meet their documentation.
use open_pa.Base.{◌≡◌, ◌==◌, ◌^◌, false, if◌then◌else◌, refl, true, arith}
use open_pa.Cell.{load_link, store_conditional, fetch_modify, compare_exchange, ◌>>=◌, ◌>>◌, pure}
use open_pa.Cell.Laws.{Finishes}
use open_pa.Primitives.{Op, Meets, perform}
use open_pa.Platform
use open_pa.Platform.Ppc.Atomic.{ppc-Meets}
use open_pa.Platform.Arm.Atomic.{arm-Meets}
use open_pa.Platform.X86.Atomic.{x86-Meets}
use open_pa.Platform.Nt.Atomic.{nt-Meets}
use open_pa.Base.Word.{bytes_4, sub32, add32}
use open_pa.Tests.Variable.{busy, busy-InRange}

abbrev pub ppc : Platform.Ppc.Instructions
ppc = record {
  lwarx = λ _. load_link;
  stwcx = λ _. store_conditional;
  ldarx = λ _. load_link;
  stdcx = λ _. store_conditional;
  lwarx_links = λ w r. refl;
  stwcx_stores = λ v w h. refl;
  ldarx_links = λ w r. refl;
  stdcx_stores = λ v w h. refl;
}

ppc-Meets_example :
    Finishes
      (Meets (2 ^ 32) Op.decr_and_test_int busy)
      (perform (Platform.Ppc.platform ppc bytes_4 4) Op.decr_and_test_int busy)
ppc-Meets_example = ppc-Meets ppc bytes_4 4 Op.decr_and_test_int busy tt busy-InRange (omega arith)

abbrev pub arm : Platform.Arm.Instructions
arm = record {
  ldrex = λ _. load_link;
  strex = λ _ v. (do ok ← store_conditional v; pure (if ok then 0 else 1));
  ldrexd = λ _. load_link;
  strexd = λ _ v. (do ok ← store_conditional v; pure (if ok then 0 else 1));
  ldrex_links = λ w r. refl;
  strex_stores = λ v w h. refl;
  ldrexd_links = λ w r. refl;
  strexd_stores = λ v w h. refl;
}

arm-Meets_example :
    Finishes
      (Meets (2 ^ 32) (Op.swap_ptr 3) busy)
      (perform (Platform.Arm.platform arm bytes_4 4) (Op.swap_ptr 3) busy)
arm-Meets_example =
    arm-Meets arm bytes_4 4 (Op.swap_ptr 3) busy (omega arith) busy-InRange (omega arith)

pub no_swap : {A : Type 0} → false ≡ true → A
no_swap e = cc

abbrev pub builtins : Platform.GccIntrinsics.Builtins
builtins = record {
  is_swap = false;
  sync_fetch_and_add = λ v. fetch_modify (λ p. add32 p v);
  sync_sub_and_fetch = λ v. (do p ← fetch_modify (λ p. sub32 p v); pure (sub32 p v));
  sync_val_compare_and_swap = compare_exchange;
  sync_lock_test_and_set = λ v. fetch_modify (λ _. 1);
  adds = λ v w. refl;
  subs = λ v w. refl;
  compares = λ old new w. refl;
  swaps = λ e v w. no_swap e;
}

abbrev pub x86 : Platform.X86.Instructions
x86 = record {
  lock_add = λ v. fetch_modify (λ p. add32 p v) >> pure tt;
  lock_inc = fetch_modify (λ p. add32 p 1) >> pure tt;
  lock_dec = (do p ← fetch_modify (λ p. sub32 p 1); pure (sub32 p 1 == 0));
  lock_xadd = λ v. fetch_modify (λ p. add32 p v);
  lock_cmpxchg = compare_exchange;
  xchg = λ v. fetch_modify (λ _. v);
  adds = λ v w. refl;
  incs = λ w. refl;
  decs = λ w. refl;
  xadds = λ v w. refl;
  compares = λ old new w. refl;
  swaps = λ v w. refl;
}

x86-Meets_example :
    Finishes
      (Meets (2 ^ 64) Op.decr_and_test_int busy)
      (perform (Platform.X86.platform x86 4) Op.decr_and_test_int busy)
x86-Meets_example = x86-Meets x86 (2 ^ 64) 4 Op.decr_and_test_int busy tt busy-InRange (omega arith)

abbrev pub sun : Platform.Sun.AtomicOps
sun = record {
  atomic_add_int = λ v. fetch_modify (λ p. add32 p v) >> pure tt;
  atomic_inc_uint = fetch_modify (λ p. add32 p 1) >> pure tt;
  atomic_dec_uint = fetch_modify (λ p. sub32 p 1) >> pure tt;
  atomic_add_int_nv = λ v. (do p ← fetch_modify (λ p. add32 p v); pure (add32 p v));
  atomic_inc_uint_nv = (do p ← fetch_modify (λ p. add32 p 1); pure (add32 p 1));
  atomic_dec_uint_nv = (do p ← fetch_modify (λ p. sub32 p 1); pure (sub32 p 1));
  atomic_cas_ptr = compare_exchange;
  atomic_cas_uint = compare_exchange;
  atomic_swap_ptr = λ v. fetch_modify (λ _. v);
  atomic_swap_uint = λ v. fetch_modify (λ _. v);
  adds = λ v w. refl;
  incs = λ w. refl;
  decs = λ w. refl;
  adds_nv = λ v w. refl;
  incs_nv = λ w. refl;
  decs_nv = λ w. refl;
  compares_ptr = λ old new w. refl;
  compares_int = λ old new w. refl;
  swaps_ptr = λ v w. refl;
  swaps_int = λ v w. refl;
}

abbrev pub nt : Platform.Nt.Intrinsics
nt = record {
  exchange_add = λ v. fetch_modify (λ p. add32 p v);
  increment = (do p ← fetch_modify (λ p. add32 p 1); pure (add32 p 1));
  decrement = (do p ← fetch_modify (λ p. sub32 p 1); pure (sub32 p 1));
  compare_exchange32 = λ _ new old. compare_exchange old new;
  compare_exchange64 = λ _ new old. compare_exchange old new;
  exchange32 = λ _ v. fetch_modify (λ _. v);
  exchange64 = λ _ v. fetch_modify (λ _. v);
  adds = λ v w. refl;
  incs = λ w. refl;
  decs = λ w. refl;
  compares32 = λ new old w h k r. refl;
  compares64 = λ new old w h k r. refl;
  swaps32 = λ v w h r. refl;
  swaps64 = λ v w h r. refl;
}

nt-Meets_example :
    Finishes
      (Meets (2 ^ 32) (Op.cas_ptr 9 1) busy)
      (perform (Platform.Nt.platform nt bytes_4 4) (Op.cas_ptr 9 1) busy)
nt-Meets_example =
    nt-Meets nt bytes_4 4 (Op.cas_ptr 9 1) busy (omega arith) (omega arith) busy-InRange
      (omega arith)
