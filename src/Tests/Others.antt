-- ===== src/Tests/Others.antt =====
-- The headers for MIPS and Itanium, and plain accesses, with instructions that meet their laws.
use open_pa.Base.{◌^◌, refl, ◌≡◌, false, true, arith, [], ◌∷◌, if◌then◌else◌, ℕ}
use open_pa.Base.Word.{bytes_8, add32, minus_one}
use open_pa.Cell.{load_link, store_conditional, fetch_modify, compare_exchange, ◌>>=◌, pure, M}
use open_pa.Cell.Laws.{writes, Finishes, Applied}
use open_pa.Primitives.{Op, Meets, perform, int_mod, truth}
use open_pa.Emulated.{
  incr_int_by_faa, decr_int_by_faa, fetch_and_incr_int_by_faa, fetch_and_decr_int_by_faa,
}
use open_pa.Platform
use open_pa.Platform.Sicortex.Atomic.{sicortex-Meets}
use open_pa.Platform.Unsafe.Alone.{alone, unsafe-Meets, add_int-loses, disturbed}
use open_pa.Platform.Ia64.Counts.{counters-Meet}
use open_pa.Platform.Ia64.Overwrites.{Overwrites, swap_int-Overwrites}
use open_pa.Tests.Variable.{busy, busy-InRange, busy-InRange64}

-- With the workaround for the faulty chip.
abbrev pub mips : Platform.Sicortex.Instructions
mips = record {
  ice9a_llsc_war = true;
  ll = λ _. load_link;
  sc = λ _ v. (do ok ← store_conditional v; pure (if ok then 1 else 0));
  lld = λ _. load_link;
  scd = λ _ v. (do ok ← store_conditional v; pure (if ok then 1 else 0));
  ll_links = λ w r. refl;
  sc_stores = λ v w h. refl;
  lld_links = λ w r. refl;
  scd_stores = λ v w h. refl;
}

sicortex-Meets_example :
    Finishes
      (Meets (2 ^ 64) (Op.cas_ptr 9 1) busy)
      (perform (Platform.Sicortex.platform mips 4 bytes_8) (Op.cas_ptr 9 1) busy)
sicortex-Meets_example =
    sicortex-Meets mips bytes_8 4 (Op.cas_ptr 9 1) busy (omega arith) busy-InRange64 (omega arith)

abbrev itanium : Platform.Ia64.Instructions
itanium = record {
  fetchadd4_rel = λ v. fetch_modify (λ p. add32 p v);
  cmpxchg4_rel = compare_exchange;
  cmpxchg8_rel = compare_exchange;
  xchg8 = λ v. fetch_modify (λ _. v);
  adds = λ v e w. refl;
  compares4 = λ old new w. refl;
  compares8 = λ old new w. refl;
  swaps8 = λ v w. refl;
}

abbrev faa : ℕ → M ℕ
faa = Platform.Ia64.fetch_and_add_int itanium 4

counters-Meet_example :
    Finishes (Meets int_mod Op.fetch_and_incr_int busy) (fetch_and_incr_int_by_faa faa busy)
    × Finishes (Meets int_mod Op.fetch_and_decr_int busy) (fetch_and_decr_int_by_faa faa busy)
    × Finishes (Applied int_mod (λ p. add32 p 1) busy) (incr_int_by_faa faa busy)
    × Finishes (Applied int_mod (λ p. add32 p minus_one) busy) (decr_int_by_faa faa busy)
    × Finishes
        (Meets int_mod Op.decr_and_test_int busy)
        ((do z ← Platform.Ia64.decr_and_test_int itanium; pure (truth z)) busy)
counters-Meet_example = counters-Meet itanium busy 4 busy-InRange

-- The other thread's 9 is in the lower half, and 0 behind it.
swap_int-Overwrites_example :
    Finishes (Overwrites 4294967295 1 busy) (Platform.Ia64.swap_int itanium 4294967295 1 busy)
swap_int-Overwrites_example =
    swap_int-Overwrites itanium 4294967295 1 busy (omega arith) (omega arith) busy-InRange64

unsafe-Meets_example :
    Finishes
      (Meets (2 ^ 64) (Op.cas_int 7 1) (alone 7 false []))
      (perform Platform.Unsafe.platform (Op.cas_int 7 1) (alone 7 false []))
unsafe-Meets_example = unsafe-Meets (2 ^ 64) (Op.cas_int 7 1) 7 false [] (omega arith) (omega arith)

add_int-loses_example :
    Finishes
      (λ _ w'. (w'.cell ≡ add32 7 5) × (w'.ahead ≡ []) × (writes w'.trace ≡ (9, add32 7 5) ∷ []))
      (Platform.Unsafe.add_int 5 (disturbed 7 9 [] false []))
    × ¬ Finishes
        (Meets int_mod (Op.add_int 5) (disturbed 7 9 [] false []))
        (perform Platform.Unsafe.platform (Op.add_int 5) (disturbed 7 9 [] false []))
add_int-loses_example =
    add_int-loses 7 9 5 [] false [] (omega arith) (omega arith) (λ e. ground (arith, e))
