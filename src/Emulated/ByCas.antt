-- ===== src/Emulated/ByCas.antt =====
-- The emulations on compare-and-swap are atomic: a round fails only when another thread has written
-- since the last look, and the round that succeeds makes the one write.
use open_pa.Base.{sym, ap, ℕ, ◌≡◌, ◌<◌, ◌∙◌, true, false, not, ◌==◌, length, arith, inl, inr, ◌⊎◌}
use open_pa.Base.Word.{add32, add32-lt}
use open_pa.Cell.{World, M, pure, ◌>>=◌, get, compare_exchange}
use open_pa.Cell.Laws.{
  Applied-cong, Finishes, finishes, bind, InRange, Applied, Swapped, hit, miss, Silent,
  Observed-Silent, Applied-after,
}
use open_pa.Cell.Actions.{get-Observed, compare_exchange-retry}
use open_pa.Cell.Loop.{do_while, Round, stop, repeat, do_while-Finishes}
use open_pa.Emulated.{
  Locals, cas_round, cas_again, fetch_and_add_int_by_cas, swap_int_by_cas, swap_ptr_by_cas,
}
use open_pa.Primitives.{int_mod}

-- The platform's load and compare-and-swap.
pub record IsCas (load : M ℕ) (cas : ℕ → ℕ → M ℕ) : Type 0 where
  pub loads : (w : World) → load w ≡ get w
  pub exchanges : (old new : ℕ) (w : World) → cas old new w ≡ compare_exchange old new w

-- At the head of a round: nothing is written, and `prev` is what the variable held at the last look.
record Looked (m : ℕ) (w : World) (l : Locals) (v : World) : Type 0 where
  silent : Silent m w v
  current : v.cell ≡ l.prev
  found : l.prev < m

module _ {load : M ℕ} {cas : ℕ → ℕ → M ℕ} (laws : IsCas load cas) (m : ℕ) (f : ℕ → ℕ)
    (small : (v : ℕ) → v < m → f v < m) (w : World) where
  outcome :
      (l : Locals) {v u : World} {p : ℕ}
      → Looked m w l v
      → Swapped m l.prev (f l.prev) v p u
      → (p ≡ l.prev) ⊎ (length u.ahead < length v.ahead)
      → Round
          (Looked m w)
          (λ x. Applied m f w x.prev)
          v
          (record { cmp = l.prev; prev = p })
          (not (p == l.prev))
          u
  outcome l {p} k (hit e a) q =
      let same : (p == l.prev) ≡ true = ground arith in
      rw same (stop (Applied-after k.silent (Applied-cong (ap f (sym e)) a)))
  outcome l k (miss n o) (inl e) = absurd (n e)
  outcome l {p} k (miss n o) (inr less) =
      let other : (p == l.prev) ≡ false = ground arith in
      rw other (
        repeat
          (record {
            silent = record {
              none_written = o.none_written ∙ k.silent.none_written;
              range = o.kept.range;
              events = omega (arith, k.silent.events);
            };
            current = o.now;
            found = o.kept.found;
          })
          less)

  round :
      (l : Locals) (v : World)
      → Looked m w l v
      → Finishes
          (λ l' u. Finishes (Round (Looked m w) (λ x. Applied m f w x.prev) v l') (cas_again l' u))
          (cas_round cas f l v)
  round l v k = rw (laws.exchanges l.prev (f l.prev) v) (
      bind
        (compare_exchange-retry m v k.silent.range l.prev (f l.prev) (small l.prev k.found)
          k.current)
        λ p u (s, q). finishes (finishes (outcome l k s q)))

  -- `prev = load(ptr); do { cmp = prev; prev = cas(ptr, cmp, f(prev)); } while (prev != cmp);`
  pub cas_loop-Applied :
      (fuel : ℕ)
      → InRange m w
      → length w.ahead < fuel
      → Finishes (Applied m f w) (
          (do
            prev ← load
            l ← do_while fuel (cas_round cas f) cas_again (record { cmp = 0; prev = prev })
            pure l.prev)
            w)
  cas_loop-Applied fuel r h = rw (laws.loads w) (
      bind (get-Observed m w r) λ prev v (o, _).
        bind
          (do_while-Finishes (Looked m w) (λ x. Applied m f w x.prev) _ _ round fuel
            (record { cmp = 0; prev = prev }) v (omega (arith, o.kept.events))
            (record { silent = Observed-Silent o; current = o.now; found = o.kept.found }))
          λ l u a. finishes a)

module _ {load : M ℕ} {cas : ℕ → ℕ → M ℕ} (laws : IsCas load cas) (fuel : ℕ) (w : World)
    (h : length w.ahead < fuel) where
  -- For any load and compare-and-swap that satisfy their laws, with more fuel than events ahead
  -- and a variable in range: fetch-and-add ends, has made one write, which replaced the value that
  -- it returns by the 32-bit sum, and nobody has written since.
  pub fetch_and_add_int_by_cas-Applied :
      InRange int_mod w
      → (val : ℕ)
      → Finishes
          (Applied int_mod (λ p. add32 p val) w)
          (fetch_and_add_int_by_cas load cas fuel val w)
  unfolding fetch_and_add_int_by_cas
  fetch_and_add_int_by_cas-Applied r val =
      cas_loop-Applied laws int_mod (λ p. add32 p val) (λ v b. add32-lt v val) w fuel r h

  -- Swap from compare-and-swap.
  pub swap_int_by_cas-Applied :
      InRange int_mod w
      → (val : ℕ) → val < int_mod
      → Finishes (Applied int_mod (λ _. val) w) (swap_int_by_cas load cas fuel val w)
  unfolding swap_int_by_cas
  swap_int_by_cas-Applied r val b = cas_loop-Applied laws int_mod (λ _. val) (λ _ _. b) w fuel r h

  -- For any load and compare-and-swap that satisfy their laws, with more fuel than events ahead
  -- and a variable in range: a swap of a pointer in range ends, has made one write, of the given
  -- value in place of the one that it returns, and nobody has written since.
  pub swap_ptr_by_cas-Applied :
      (m : ℕ)
      → InRange m w
      → (val : ℕ) → val < m
      → Finishes (Applied m (λ _. val) w) (swap_ptr_by_cas load cas fuel val w)
  unfolding swap_ptr_by_cas
  swap_ptr_by_cas-Applied m r val b = cas_loop-Applied laws m (λ _. val) (λ _ _. b) w fuel r h
