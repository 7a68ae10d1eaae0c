-- ===== src/Tests/Retrying.antt =====
-- Threads in the retry loops.
use open_pa.Base.{◌≡◌, ◌<◌, ◌⊎◌, refl}
use open_pa.Emulated.Retries.{
  compare_and_swap, load, adding, storing, swapping, idle, System, Step, Reachable, start, stores,
  stored, load_linked, store_conditional,
}
use open_pa.Emulated.Retries.Invariant.{IsLegal, replay}
use open_pa.Base.Word.{add32}
use open_pa.Emulated.Retries.Atomic.{attempt, retries-IsLegal, attempt-ends}

abbrev Reached : Type 0
Reached = (s : System) × Reachable 7 s

-- Both have found 7.
abbrev both : Reached
unfolding load_linked stores
both = (
  _,
  Reachable.then
      (Reachable.then
        (Reachable.then (Reachable.then start (Step.begin 0 (adding 5) refl))
          (Step.link 0 (adding 5) refl))
        (Step.begin 1 (swapping 9) refl))
      (Step.link 1 (swapping 9) refl),
)

-- Thread 1 has stored 9.
abbrev overtaken : Reached
unfolding load_linked stores store_conditional stored
overtaken = (_, Reachable.then both.1 (Step.store 1 (swapping 9) 7 0 refl))

retries-IsLegal_example :
    IsLegal 7 overtaken.0.history × (overtaken.0.cell ≡ replay 7 overtaken.0.history)
retries-IsLegal_example = retries-IsLegal 7 overtaken.0 overtaken.1

attempt-ends_example :
    ((attempt 0 (storing (adding 5) 7 0) overtaken.0).workers 0 ≡ idle) ⊎ (0 < overtaken.0.changes)
unfolding load_linked stores store_conditional overtaken
attempt-ends_example = attempt-ends 7 overtaken.0 0 (storing (adding 5) 7 0) 0 overtaken.1 refl refl

-- Thread 2 adds 1 by compare-and-swap, the first time between the other threads' accesses.
abbrev mixed : Reached
unfolding load_linked stores store_conditional stored load compare_and_swap
mixed = (
  _,
  Reachable.then
      (Reachable.then
        (Reachable.then
          (Reachable.then (Reachable.then both.1 (Step.begin_by_cas 2 (adding 1) refl tt))
            (Step.first_load 2 (adding 1) refl))
          (Step.store 1 (swapping 9) 7 0 refl))
        (Step.compare 2 (adding 1) 7 0 refl))
      (Step.compare 2 (adding 1) 9 1 refl),
)

mixed-cell : mixed.0.cell ≡ 10
unfolding load_linked stores store_conditional stored load compare_and_swap mixed add32
mixed-cell = refl
