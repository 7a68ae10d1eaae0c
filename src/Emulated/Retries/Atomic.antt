-- ===== src/Emulated/Retries/Atomic.antt =====
-- The retry loops are atomic among any number of threads, and a failed round is due to another thread.
use open_pa.Base.{sym, ℕ, ◌≡◌, ◌<◌, refl, subst, inl, inr, ◌⊎◌, ==-self}
use open_pa.Emulated.Retries.Invariant.{replay, Found}
use open_pa.Emulated.Retries.Invariant.{IsLegal}
use open_pa.Emulated.Retries.Moves.{Reachable-Inv}
use open_pa.Emulated.Retries.{
  compare_and_swap, Loop, Worker, idle, linking, storing, loading, trying, System,
  store_conditional, Reachable,
}

-- After any steps of any threads in the loops on load-linked and store-conditional and those on
-- compare-and-swap, lost reservations included: each call that has ended had the result of the reference semantics on the value that the
-- calls ended before it leave, and the variable holds the value that all of them leave.
pub retries-IsLegal :
    (v : ℕ) (s : System) → Reachable v s → IsLegal v s.history × (s.cell ≡ replay v s.history)
retries-IsLegal v s r = let h = Reachable-Inv v s r in (h.legal, h.cell)

store_conditional-ends :
    (v : ℕ) (s : System) (i : ℕ) (l : Loop) (prev seen : ℕ)
    → Reachable v s
    → s.workers i ≡ storing l prev seen
    → ((store_conditional i l prev s).workers i ≡ idle) ⊎ (seen < s.changes)
unfolding store_conditional
store_conditional-ends v s i l prev seen r w =
    let (_, o) = subst (Found s.cell (s.reserved i) s.changes) w ((Reachable-Inv v s r).found i) in
    elim o [ inl x ↦ rw (x.0) (inl (rw (==-self i) refl)) | inr x ↦ inr x.1 ]

compare_and_swap-ends :
    (v : ℕ) (s : System) (i : ℕ) (l : Loop) (prev seen : ℕ)
    → Reachable v s
    → s.workers i ≡ trying l prev seen
    → ((compare_and_swap i l prev s).workers i ≡ idle) ⊎ (seen < s.changes)
unfolding compare_and_swap
compare_and_swap-ends v s i l prev seen r w =
    let (_, o) = subst (Found s.cell (s.reserved i) s.changes) w ((Reachable-Inv v s r).found i) in
    elim o [ inl x ↦ inl (rw (sym x.0, ==-self prev, ==-self i) refl) | inr x ↦ inr x ]

-- The thread is at the access that can end its call, and made the load of its round at `seen`.
abbrev pub IsAttempt : Worker → ℕ → Type 0
IsAttempt (storing l prev n) seen = n ≡ seen
IsAttempt (trying l prev n) seen = n ≡ seen
IsAttempt _ seen = ⊥

abbrev pub attempt : ℕ → Worker → System → System
attempt i (storing l prev n) s = store_conditional i l prev s
attempt i (trying l prev n) s = compare_and_swap i l prev s
attempt i _ s = s

-- After any steps of any threads in the loops: the store-conditional or the compare-and-swap that a thread is
-- about to make ends its call, or else, since the access of its round that found the value, some call has
-- stored to the variable or a reservation has been lost for another reason.
pub attempt-ends :
    (v : ℕ) (s : System) (i : ℕ) (w : Worker) (seen : ℕ)
    → Reachable v s
    → s.workers i ≡ w
    → IsAttempt w seen
    → ((attempt i w s).workers i ≡ idle) ⊎ (seen < s.changes)
attempt-ends v s i idle seen r e k = absurd k
attempt-ends v s i (linking l) seen r e k = absurd k
attempt-ends v s i (loading l) seen r e k = absurd k
attempt-ends v s i (storing l prev n) seen r e k =
    subst (λ m. ((attempt i (storing l prev n) s).workers i ≡ idle) ⊎ (m < s.changes)) k
      (store_conditional-ends v s i l prev n r e)
attempt-ends v s i (trying l prev n) seen r e k =
    subst (λ m. ((attempt i (trying l prev n) s).workers i ≡ idle) ⊎ (m < s.changes)) k
      (compare_and_swap-ends v s i l prev n r e)
