-- ===== src/Platform/Sicortex/Atomic.antt =====
-- Every operation of src/primitives/opa_gcc_sicortex.h keeps its promise.
use open_pa.Base.{
  arith, ◌^◌, refl, ◌≡◌, false, true, if◌then◌else◌, ◌∙◌, Bool, ℕ, ◌<◌, length, not, ◌==◌, ap,
}
use open_pa.Base.Word.{minus_one, Size, bytes_4, bytes_8, size_mod}
use open_pa.Cell.{done, out_of_fuel, pure, and_then, Outcome, World, Fence, M, ◌>>◌}
use open_pa.Cell.{load_link, store_conditional}
use open_pa.Cell.Actions.{load_link-Linked, Linked}
use open_pa.Cell.Laws.{
  Observed-Silent, Observed-after, mono, bind, Finishes, InRange, Applied, Swapped,
}
use open_pa.Primitives.{Op, perform, Meets, WellTyped, modulus, int_mod}
use open_pa.Primitives.Derived.{
  tested, load-Meets, store-Meets, load_acquire-Meets, store_release-Meets, updated, discarded,
}
use open_pa.Emulated.ByLlsc.{IsLlsc, llsc_loop-Applied, llsc_loop-Swapped}
use open_pa.Base.Word.{add32-lt, add32}
use open_pa.Platform.Sicortex.{
  swap_int, cas_int, fetch_and_decr_int, fetch_and_incr_int, fetch_and_add_int, decr_int, incr_int,
  add_int, decr_and_test_int, store_release_ptr, load_acquire_ptr, store_release_int,
  load_acquire_int, store_ptr, load_ptr, store_int, stored_8, load_int, stored_4, platform, cas_ptr,
  shmemi_fetch_add_4, shmemi_fetch_add_8, add64, link_8, shmemi_cswap_4, swap_ptr, shmemi_swap_8,
  link_4, shmemi_cswap_8, shmemi_swap_4, Instructions,
}

add64-lt : (a b : ℕ) → add64 a b < 2 ^ 64
unfolding add64
add64-lt a b = omega arith

-- `beqz` on the register gives the answer back.
branch :
    (o : Outcome Bool)
    → and_then
        (and_then o (λ ok. pure (if ok then 1 else 0)))
        (λ (temp : ℕ). pure (not (temp == 0)))
      ≡ o
branch (done true w) = refl
branch (done false w) = refl
branch out_of_fuel = refl

-- A load-link after another one.
module _ (m : ℕ) (ll : M ℕ) (links : (w : World) → InRange m w → ll w ≡ load_link w) (w : World)
    (r : InRange m w) where
  once : Finishes (Linked m w) (ll w)
  once = rw (links w r) (load_link-Linked m w r)

  twice : Finishes (Linked m w) ((ll >> ll) w)
  twice = bind once λ p v l. rw (links v l.seen.kept.range) (
      mono (load_link-Linked m v l.seen.kept.range) λ q u k. record {
        seen = Observed-after (Observed-Silent l.seen) k.seen;
        reserved = k.reserved;
      })

  war_links : (war : Bool) → Finishes (Linked m w) ((if war then ll >> ll else ll) w)
  war_links true = twice
  war_links false = once

module _ (isa : Instructions) where
  laws_4 : IsLlsc (2 ^ 32) (link_4 isa bytes_4) (stored_4 isa bytes_4)
  unfolding link_4 stored_4
  laws_4 = record {
    links = λ w r. war_links (2 ^ 32) (isa.ll bytes_4) isa.ll_links w r isa.ice9a_llsc_war;
    stores = λ v w h.
        ap (λ o. and_then o (λ (temp : ℕ). pure (not (temp == 0)))) (isa.sc_stores v w h)
        ∙ branch (store_conditional v w);
  }

  laws_8 : IsLlsc (2 ^ 64) (link_8 isa bytes_8) (stored_8 isa bytes_8)
  unfolding link_8 stored_8
  laws_8 = record {
    links = λ w r. war_links (2 ^ 64) (isa.lld bytes_8) isa.lld_links w r isa.ice9a_llsc_war;
    stores = λ v w h.
        ap (λ o. and_then o (λ (temp : ℕ). pure (not (temp == 0)))) (isa.scd_stores v w h)
        ∙ branch (store_conditional v w);
  }

  module _ (fuel : ℕ) (w : World) (h : length w.ahead < fuel) where
    fetch_add_4-Applied :
        (val : ℕ)
        → InRange int_mod w
        → Finishes
            (Applied int_mod (λ p. add32 p val) w)
            (shmemi_fetch_add_4 isa bytes_4 fuel val w)
    unfolding shmemi_fetch_add_4
    fetch_add_4-Applied val r =
        llsc_loop-Applied laws_4 (λ p. add32 p val) (λ v b. add32-lt v val) fuel w r h

    -- For any instructions that satisfy their laws, on a chip with or without the fault, with more
    -- fuel than events ahead and a 64-bit variable in range: the 64-bit fetch-and-add, which nothing
    -- in the header calls, ends, has made one write, which replaced the value that it returns by the
    -- 64-bit sum, and nobody has written since.
    pub shmemi_fetch_add_8-Applied :
        (val : ℕ)
        → InRange (2 ^ 64) w
        → Finishes
            (Applied (2 ^ 64) (λ p. add64 p val) w)
            (shmemi_fetch_add_8 isa bytes_8 fuel val w)
    unfolding shmemi_fetch_add_8
    shmemi_fetch_add_8-Applied val r =
        llsc_loop-Applied laws_8 (λ p. add64 p val) (λ v b. add64-lt v val) fuel w r h

    module _ (val : ℕ) (r : InRange int_mod w) (t : val < int_mod) where
      swap_4-Applied :
          Finishes (Applied int_mod (λ _. val) w) (shmemi_swap_4 isa bytes_4 fuel val w)
      unfolding shmemi_swap_4
      swap_4-Applied = llsc_loop-Applied laws_4 (λ _. val) (λ _ _. t) fuel w r h

      cswap_4-Swapped :
          (old : ℕ)
          → Finishes (Swapped int_mod old val w) (shmemi_cswap_4 isa bytes_4 fuel old val w)
      unfolding shmemi_cswap_4
      cswap_4-Swapped old = llsc_loop-Swapped laws_4 old val t fuel w r h

    module _ (val : ℕ) (r : InRange (2 ^ 64) w) (t : val < 2 ^ 64) where
      swap_8-Applied :
          Finishes (Applied (2 ^ 64) (λ _. val) w) (shmemi_swap_8 isa bytes_8 fuel val w)
      unfolding shmemi_swap_8
      swap_8-Applied = llsc_loop-Applied laws_8 (λ _. val) (λ _ _. t) fuel w r h

      cswap_8-Swapped :
          (old : ℕ)
          → Finishes (Swapped (2 ^ 64) old val w) (shmemi_cswap_8 isa bytes_8 fuel old val w)
      unfolding shmemi_cswap_8
      cswap_8-Swapped old = llsc_loop-Swapped laws_8 old val t fuel w r h

    swap_ptr-Applied :
        (size : Size) (val : ℕ)
        → InRange (size_mod size) w
        → val < size_mod size
        → Finishes (Applied (size_mod size) (λ _. val) w) (swap_ptr isa fuel size val w)
    unfolding swap_ptr
    swap_ptr-Applied bytes_4 val r t = swap_4-Applied val r t
    swap_ptr-Applied bytes_8 val r t = swap_8-Applied val r t

    cas_ptr-Swapped :
        (size : Size) (val old : ℕ)
        → InRange (size_mod size) w
        → val < size_mod size
        → Finishes (Swapped (size_mod size) old val w) (cas_ptr isa fuel size old val w)
    unfolding cas_ptr
    cas_ptr-Swapped bytes_4 val old r t = cswap_4-Swapped val r t old
    cas_ptr-Swapped bytes_8 val old r t = cswap_8-Swapped val r t old

  -- For any instructions that satisfy their laws, on a chip with or without the fault, and
  -- pointers of 4 or of 8 bytes: a well-typed
  -- call of any operation, on a variable in range, with more fuel than events ahead, ends with the
  -- result and the effect that `Meets` promises, a read-modify-write being one write that replaces
  -- the value returned, whatever other threads write in between.
  pub sicortex-Meets :
      (size : Size) (fuel : ℕ) (op : Op) (w : World)
      → WellTyped (size_mod size) op
      → InRange (modulus (size_mod size) op) w
      → length w.ahead < fuel
      → Finishes (Meets (size_mod size) op w) (perform (platform isa fuel size) op w)
  unfolding perform platform load_int store_int load_ptr store_ptr load_acquire_int
      store_release_int load_acquire_ptr store_release_ptr decr_and_test_int add_int incr_int
      decr_int fetch_and_add_int fetch_and_incr_int fetch_and_decr_int cas_int swap_int
  sicortex-Meets size fuel Op.load_int w t r h = load-Meets int_mod w r
  sicortex-Meets size fuel Op.load_ptr w t r h = load-Meets (size_mod size) w r
  sicortex-Meets size fuel Op.load_acquire_int w t r h =
      load_acquire-Meets int_mod w r Fence.mips_sync
  sicortex-Meets size fuel Op.load_acquire_ptr w t r h =
      load_acquire-Meets (size_mod size) w r Fence.mips_sync
  sicortex-Meets size fuel (Op.store_int v) w t r h = store-Meets int_mod w r v t
  sicortex-Meets size fuel (Op.store_ptr v) w t r h = store-Meets (size_mod size) w r v t
  sicortex-Meets size fuel (Op.store_release_int v) w t r h =
      store_release-Meets int_mod w r Fence.mips_sync v t
  sicortex-Meets size fuel (Op.store_release_ptr v) w t r h =
      store_release-Meets (size_mod size) w r Fence.mips_sync v t
  sicortex-Meets size fuel (Op.add_int v) w t r h =
      updated (discarded (fetch_add_4-Applied fuel w h v r))
  sicortex-Meets size fuel (Op.fetch_and_add_int v) w t r h = fetch_add_4-Applied fuel w h v r
  sicortex-Meets size fuel Op.incr_int w t r h =
      updated (discarded (fetch_add_4-Applied fuel w h 1 r))
  sicortex-Meets size fuel Op.decr_int w t r h =
      updated (discarded (fetch_add_4-Applied fuel w h minus_one r))
  sicortex-Meets size fuel Op.decr_and_test_int w t r h =
      tested (fetch_add_4-Applied fuel w h minus_one r)
  sicortex-Meets size fuel Op.fetch_and_incr_int w t r h = fetch_add_4-Applied fuel w h 1 r
  sicortex-Meets size fuel Op.fetch_and_decr_int w t r h = fetch_add_4-Applied fuel w h minus_one r
  sicortex-Meets size fuel (Op.cas_int old new) w t r h = cswap_4-Swapped fuel w h new r t old
  sicortex-Meets size fuel (Op.cas_ptr old new) w t r h = cas_ptr-Swapped fuel w h size new old r t
  sicortex-Meets size fuel (Op.swap_int v) w t r h = swap_4-Applied fuel w h v r t
  sicortex-Meets size fuel (Op.swap_ptr v) w t r h = swap_ptr-Applied fuel w h size v r t
