-- ===== src/Queue/Calls.antt =====
-- A client of the queue in one thread, under the rules that src/opa_queue.h states: `is_empty` is
-- called before every `peek_head` and every `dequeue`.
use open_pa.Base.{
  ◌∙◌, arith, ℕ, ◌≡◌, ◌≢◌, ◌<◌, if◌then◌else◌, Option, none, some, List, [], ◌∷◌, ◌++◌, refl, ap,
  true,
}
use mathlib.Core.Path.{ap₂}
use open_pa.Shm.{address_mod, rel_to_abs}
use open_pa.Queue.{
  State, Run, Q, pure, chain, ok, ◌>>=◌, ◌>>◌, is_empty, peek_head, enqueue, dequeue,
}
use open_pa.Queue.Shape.{link, NotIn, Holds}
use open_pa.Queue.Dequeue.{dequeue-cons}
use open_pa.Queue.Ops.{
  Ends, ends, is_some, SameElements, is_empty-Ready, peek_head-first, enqueue-snoc,
}

-- Enqueue the element at a relative address; dequeue; look at the first element.
pub data Call : Type 0 where
  put : (a : ℕ) → Call
  take look : Call

unfoldable pub call : ℕ → Call → Q (Option ℕ)
call fuel (put a) = do base ← (λ s. ok s.base s); enqueue (rel_to_abs base a); pure none
call fuel take = do
  empty ← is_empty
  if empty then pure none else (do e ← dequeue fuel; pure (some e))
call fuel look = do empty ← is_empty; if empty then pure none else (do e ← peek_head; pure (some e))

unfoldable pub calls : ℕ → List Call → Q (List (Option ℕ))
unfolding call
calls fuel [] = pure []
calls fuel (c ∷ cs) = do out ← call fuel c; outs ← calls fuel cs; pure (out ∷ outs)

-- The specification: a list, and the address in this process of what is first in it.
abbrev pub spec_after : Call → List ℕ → List ℕ
spec_after (put a) rs = rs ++ a ∷ []
spec_after take [] = []
spec_after take (r ∷ rs) = rs
spec_after look rs = rs

abbrev pub spec_out : ℕ → Call → List ℕ → Option ℕ
spec_out base (put a) rs = none
spec_out base _ [] = none
spec_out base take (r ∷ rs) = some (rel_to_abs base r)
spec_out base look (r ∷ rs) = some (rel_to_abs base r)

abbrev pub spec_outs : ℕ → List Call → List ℕ → List (Option ℕ)
spec_outs base [] rs = []
spec_outs base (c ∷ cs) rs = spec_out base c rs ∷ spec_outs base cs (spec_after c rs)

abbrev pub spec_end : List Call → List ℕ → List ℕ
spec_end [] rs = rs
spec_end (c ∷ cs) rs = spec_end cs (spec_after c rs)

-- What a client may put: an element that exists, not at the base of the segment, and not queued.
abbrev pub IsAllowed : State → Call → List ℕ → Type 0
IsAllowed s (put a) rs = (a ≢ 0) × (a < address_mod) × (is_some (link s a) ≡ true) × NotIn a rs
IsAllowed s _ rs = Unit

abbrev pub AllAllowed : State → List Call → List ℕ → Type 0
AllAllowed s [] rs = Unit
AllAllowed s (c ∷ cs) rs = IsAllowed s c rs × AllAllowed s cs (spec_after c rs)

pub bind :
    {A B : Type 0} {P : A → State → Type 0} {R : B → State → Type 0} {m : Run A} {k : A → Q B}
    → Ends P m
    → ((a : A) (s : State) → P a s → Ends R (k a s))
    → Ends R (chain m k)
bind (ends p) next = next _ _ p

mono :
    {A : Type 0} {P R : A → State → Type 0} {m : Run A}
    → Ends P m
    → ((a : A) (s : State) → P a s → R a s)
    → Ends R m
mono (ends p) weaken = ends (weaken _ _ p)

-- One call, on the list and on the elements.
record Follows (s : State) (rs : List ℕ) (s' : State) : Type 0 where
  holds : Holds s' rs
  base : s'.base ≡ s.base
  elements : SameElements s s'

some_of : {o : Option ℕ} → is_some o ≡ true → (v : ℕ) × (o ≡ some v)
some_of {o} h = ground arith

call-Follows :
    (fuel : ℕ) (c : Call) (s : State) (rs : List ℕ)
    → Holds s rs
    → IsAllowed s c rs
    → Ends (λ out s'. (out ≡ spec_out s.base c rs) × Follows s (spec_after c rs) s') (call fuel c s)
unfolding call
call-Follows fuel (put a) s rs h (n, small, here, out) =
    let (v, e) = some_of here in
    bind (enqueue-snoc s a v n small e rs h out)
      λ _ s' (k, b, same). ends (refl, record { holds = k; base = b; elements = same })
call-Follows fuel take s [] h t = bind (is_empty-Ready s [] h) λ b s' (e, y, base, next). rw e (
    ends
      (refl, record { holds = y.holds; base = base; elements = λ p. ap (λ n. is_some (n p)) next }))
call-Follows fuel take s (r ∷ rs) h t =
    bind (is_empty-Ready s (r ∷ rs) h) λ b s' (e, y, base, next). rw e (
      bind (dequeue-cons fuel s' r rs y) λ x s'' (got, k, _, base', same). ends (
        ap some (got ∙ ap (λ b. rel_to_abs b r) base),
        record {
          holds = k;
          base = base' ∙ base;
          elements = λ p. same p ∙ ap (λ n. is_some (n p)) next;
        },
      ))
call-Follows fuel look s [] h t = bind (is_empty-Ready s [] h) λ b s' (e, y, base, next). rw e (
    ends
      (refl, record { holds = y.holds; base = base; elements = λ p. ap (λ n. is_some (n p)) next }))
call-Follows fuel look s (r ∷ rs) h t =
    bind (is_empty-Ready s (r ∷ rs) h) λ b s' (e, y, base, next).
      rw (e, peek_head-first s' (r ∷ rs) y)
        (ends (
          ap (λ b. some (rel_to_abs b r)) base,
          record { holds = y.holds; base = base; elements = λ p. ap (λ n. is_some (n p)) next },
        ))

IsAllowed-Follows :
    (c : Call) (rs : List ℕ) {s s' : State} {qs : List ℕ}
    → Follows s qs s'
    → IsAllowed s c rs
    → IsAllowed s' c rs
IsAllowed-Follows (put a) rs {s} {s'} f (n, small, here, out) = (
  n,
  small,
  f.elements (rel_to_abs s'.base a) ∙ ap (λ b. is_some (s.next (rel_to_abs b a))) f.base ∙ here,
  out,
)
IsAllowed-Follows take rs f t = tt
IsAllowed-Follows look rs f t = tt

calls-Follows :
    (fuel : ℕ) (cs : List Call) (s₀ s : State) (rs : List ℕ)
    → Follows s₀ rs s
    → AllAllowed s₀ cs rs
    → Ends
        (λ outs s'. (outs ≡ spec_outs s₀.base cs rs) × Follows s₀ (spec_end cs rs) s')
        (calls fuel cs s)
unfolding calls
calls-Follows fuel [] s₀ s rs f t = ends (refl, f)
calls-Follows fuel (c ∷ cs) s₀ s rs f (t, ts) =
    bind (call-Follows fuel c s rs f.holds (IsAllowed-Follows c rs f t)) λ out s' (e, g).
      bind
        (calls-Follows fuel cs s₀ s' (spec_after c rs)
          (record {
            holds = g.holds;
            base = g.base ∙ f.base;
            elements = λ p. g.elements p ∙ f.elements p;
          })
          ts)
        λ outs s'' (es, g').
          ends (ap₂ (λ o os. o ∷ os) (e ∙ ap (λ b. spec_out b c rs) f.base) es, g')

-- From a queue that holds `rs`, any sequence of allowed calls, in one thread and whatever the
-- fuel, ends with the results that the specification's list gives, and the queue then holds that
-- list.
pub calls-refine :
    (fuel : ℕ) (cs : List Call) (s : State) (rs : List ℕ)
    → Holds s rs
    → AllAllowed s cs rs
    → Ends
        (λ outs s'. (outs ≡ spec_outs s.base cs rs) × Holds s' (spec_end cs rs))
        (calls fuel cs s)
calls-refine fuel cs s rs h t =
    mono (calls-Follows fuel cs s s rs (record { holds = h; base = refl; elements = λ p. refl }) t)
      λ outs s' (e, f). (e, f.holds)
