-- ===== src/Emulated/ByLlsc.antt =====
-- The emulations on load-link and store-conditional are atomic: they end once the other threads leave
-- the variable alone for a round, and then they have made one write that nobody came between.
pub mod Ops
use open_pa.Base.{
  ℕ, ◌≡◌, ◌<◌, ◌^◌, refl, ◌∙◌, Bool, true, false, not, ◌==◌, if◌then◌else◌, length, arith,
  Bool-cases, inl, inr, ==-eq, ==-ne,
}
use open_pa.Base.Word.{add32, add32-lt, minus_one}
use open_pa.Cell.{World, M, pure, ◌>>=◌, ◌>>◌, load_link, store_conditional}
use open_pa.Cell.Laws.{
  Finishes, finishes, bind, mono, InRange, Applied, Observed, Swapped, hit, miss, Silent, writes,
  Observed-Silent, Applied-after, Observed-after, Applied-cong,
}
use open_pa.Cell.Actions.{
  Linked, Conditional, stored, failed, load_link-Linked, store_conditional-Conditional,
}
use open_pa.Cell.Loop.{do_while, Round, stop, repeat, do_while-Finishes}

-- What the loops need of the platform's two instructions, on a variable with values below `m`.
pub record IsLlsc (m : ℕ) (ll : M ℕ) (sc : ℕ → M Bool) : Type 0 where
  pub links : (w : World) → InRange m w → Finishes (Linked m w) (ll w)
  pub stores : (v : ℕ) (w : World) → v < m → sc v w ≡ store_conditional v w

module _ {m : ℕ} {ll : M ℕ} {sc : ℕ → M Bool} (laws : IsLlsc m ll sc) where
  sc-Conditional :
      (x : ℕ) {v u : World} {prev : ℕ}
      → Linked m v prev u
      → x < m
      → Finishes (Conditional m prev x u) (sc x u)
  sc-Conditional x {u} {prev} l h =
      rw (laws.stores x u h)
        (store_conditional-Conditional m u l.seen.kept.range prev x h l.reserved l.seen.now)

  -- The store of `f prev` after a load-link that found `prev`.
  retry :
      (f : ℕ → ℕ) {w v u : World} {prev : ℕ} (b : Bool) {w' : World}
      → Silent m w v
      → Linked m v prev u
      → Conditional m prev (f prev) u b w'
      → Round (λ _. Silent m w) (Applied m f w) v prev (not b) w'
  retry f true s l (stored a) =
      stop (Applied-cong refl (Applied-after s (Applied-after (Observed-Silent l.seen) a)))
  retry f false s l (failed quiet range less) =
      repeat
        (record {
          none_written = quiet ∙ l.seen.none_written ∙ s.none_written;
          range = range;
          events = omega (arith, s.events, l.seen.kept.events);
        })
        (omega (arith, l.seen.kept.events))

  -- `do { prev = LL(ptr); } while (!SC(ptr, f(prev)));`
  pub llsc_loop-Applied :
      (f : ℕ → ℕ)
      → ((v : ℕ) → v < m → f v < m)
      → (fuel : ℕ) (w : World) → InRange m w
      → length w.ahead < fuel
      → Finishes
          (Applied m f w)
          (do_while fuel (λ _. ll) (λ prev. do ok ← sc (f prev); pure (not ok)) 0 w)
  llsc_loop-Applied f small fuel w r h =
      do_while-Finishes (λ _. Silent m w) (Applied m f w) _ _ round fuel 0 w h
        (record { none_written = refl; range = r; events = omega arith })
    where
      round :
          (s : ℕ) (v : World)
          → Silent m w v
          → Finishes
              (λ prev u.
                Finishes
                  (Round (λ _. Silent m w) (Applied m f w) v prev)
                  ((do ok ← sc (f prev); pure (not ok)) u))
              (ll v)
      round s v quiet = mono (laws.links v quiet.range) λ prev u l.
          bind (sc-Conditional (f prev) l (small prev l.seen.kept.found))
            λ b w' c. finishes (retry f b quiet l c)

  -- `do { prev = LL(ptr); } while (prev == oldv && !SC(ptr, newv));`
  pub llsc_loop-Swapped :
      (oldv newv : ℕ)
      → newv < m
      → (fuel : ℕ) (w : World) → InRange m w
      → length w.ahead < fuel
      → Finishes (Swapped m oldv newv w) (
          do_while fuel
            (λ _. ll)
            (λ prev. if prev == oldv then (do ok ← sc newv; pure (not ok)) else pure false)
            0
            w)
  llsc_loop-Swapped oldv newv small fuel w r h =
      do_while-Finishes (λ _. Silent m w) (Swapped m oldv newv w) _ _ round fuel 0 w h
        (record { none_written = refl; range = r; events = omega arith })
    where
      found :
          {prev : ℕ} {v : World} {b : Bool} {w' : World}
          → prev ≡ oldv
          → Round (λ _. Silent m w) (Applied m (λ _. newv) w) v prev b w'
          → Round (λ _. Silent m w) (Swapped m oldv newv w) v prev b w'
      found e (stop a) = stop (hit e a)
      found e (repeat s less) = repeat s less

      test :
          (prev : ℕ) {v u : World}
          → Silent m w v
          → Linked m v prev u
          → Finishes
              (Round (λ _. Silent m w) (Swapped m oldv newv w) v prev)
              ((if prev == oldv then (do ok ← sc newv; pure (not ok)) else pure false) u)
      test prev {v} {u} quiet l = elim (Bool-cases (prev == oldv)) [
        | inl same ↦ rw same (
            bind (sc-Conditional newv l small)
              λ b w' c. finishes (found (==-eq prev oldv same) (retry (λ _. newv) b quiet l c)))
        | inr other ↦
            rw other (finishes (stop (miss (==-ne prev oldv other) (Observed-after quiet l.seen))))
      ]

      round :
          (s : ℕ) (v : World)
          → Silent m w v
          → Finishes
              (λ prev u.
                Finishes
                  (Round (λ _. Silent m w) (Swapped m oldv newv w) v prev)
                  ((if prev == oldv then (do ok ← sc newv; pure (not ok)) else pure false) u))
              (ll v)
      round s v quiet = mono (laws.links v quiet.range) λ prev u l. test prev quiet l
