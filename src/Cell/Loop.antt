-- ===== src/Cell/Loop.antt =====
-- The `do … while` loops of the source, on fuel: each round that fails has used up an event.
use open_pa.Base.{ℕ, zero, suc, ◌<◌, Bool, true, false, if◌then◌else◌, length, arith}
use open_pa.Cell.{World, out_of_fuel, M, pure, ◌>>=◌}
use open_pa.Cell.Laws.{Finishes, finishes, bind}

-- `do { s = body(s); } while (again(s));`
unfoldable pub do_while {ℓ} : {S : Type ℓ} → ℕ → (S → M S) → (S → M Bool) → S → M S
do_while zero body again s = λ w. out_of_fuel
do_while (suc k) body again s = do
  s' ← body s
  more ← again s'
  if more then do_while k body again s' else pure s'

-- What a round has to establish: the result, or the invariant with fewer events ahead.
pub data Round {ℓ κ} {S : Type ℓ} (Inv Post : S → World → Type κ) (w : World) (s : S)
    : Bool → World → Type (ℓ ⊔ κ) where
  stop : {w' : World} → Post s w' → Round Inv Post w s false w'
  repeat : {w' : World} → Inv s w' → length w'.ahead < length w.ahead → Round Inv Post w s true w'

module _ {ℓ κ} {S : Type ℓ} (Inv Post : S → World → Type κ) (body : S → M S)
    (again : S → M Bool) where
  after_round :
      (k : ℕ) {w : World} (s' : S) (more : Bool) (w'' : World)
      → Round Inv Post w s' more w''
      → (length w''.ahead < length w.ahead
          → Inv s' w''
          → Finishes Post (do_while k body again s' w''))
      → Finishes Post ((if more then do_while k body again s' else pure s') w'')
  after_round k s' true w'' (repeat i less) rest = rest less i
  after_round k s' false w'' (stop p) rest = finishes p

  -- With more fuel than events ahead the loop ends.
  pub do_while-Finishes :
      ((s : S) (w : World)
        → Inv s w
        → Finishes (λ s' w'. Finishes (Round Inv Post w s') (again s' w')) (body s w))
      → (fuel : ℕ) (s : S) (w : World) → length w.ahead < fuel
      → Inv s w
      → Finishes Post (do_while fuel body again s w)
  unfolding do_while
  do_while-Finishes round zero s w h inv = absurd (omega arith)
  do_while-Finishes round (suc k) s w h inv = bind (round s w inv) λ s' w' r. bind r λ more w'' q.
      after_round k s' more w'' q λ less i. do_while-Finishes round k s' w'' (omega arith) i
