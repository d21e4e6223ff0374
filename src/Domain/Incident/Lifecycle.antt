-- ===== src/Domain/Incident/Lifecycle.antt =====
-- The lifecycle state machine of an incident: `next_state` in crates/core/src/domain/incident.rs.
use statuspage.Base.{◌≡◌, refl, ◌↔◌, ◌⊎◌, inl, inr, true, false, List, [], ◌∷◌, arith}
use statuspage.Domain.Incident.Kinds.{IncidentState, is_open}

pub data IncidentTransition : Type 0 where
  acknowledge resolve auto_resolve reopen : IncidentTransition

pub record TransitionError : Type 0 where
  pub from : IncidentState
  pub transition : IncidentTransition

pub data Outcome : Type 0 where
  ok : IncidentState → Outcome
  err : TransitionError → Outcome

unfoldable pub next_state : IncidentState → IncidentTransition → Outcome
next_state IncidentState.triggered acknowledge = ok IncidentState.acknowledged
next_state IncidentState.acknowledged acknowledge = ok IncidentState.acknowledged
next_state IncidentState.resolved acknowledge =
    err (record { from = IncidentState.resolved; transition = acknowledge })
next_state IncidentState.triggered resolve = ok IncidentState.resolved
next_state IncidentState.acknowledged resolve = ok IncidentState.resolved
next_state IncidentState.resolved resolve = ok IncidentState.resolved
next_state IncidentState.triggered auto_resolve = ok IncidentState.resolved
next_state IncidentState.acknowledged auto_resolve = ok IncidentState.resolved
next_state IncidentState.resolved auto_resolve = ok IncidentState.resolved
next_state IncidentState.resolved reopen = ok IncidentState.triggered
next_state IncidentState.triggered reopen =
    err (record { from = IncidentState.triggered; transition = reopen })
next_state IncidentState.acknowledged reopen =
    err (record { from = IncidentState.acknowledged; transition = reopen })

-- The documented diagram, by what a transition asks of the state it leaves.
pub data Legal : IncidentState → IncidentTransition → IncidentState → Type 0 where
  take_over :
      {s : IncidentState} → is_open s ≡ true → Legal s acknowledge IncidentState.acknowledged
  close : (s : IncidentState) → Legal s resolve IncidentState.resolved
  recover : (s : IncidentState) → Legal s auto_resolve IncidentState.resolved
  again : {s : IncidentState} → is_open s ≡ false → Legal s reopen IncidentState.triggered

next_state_sound :
    (s : IncidentState) (t : IncidentTransition) (s' : IncidentState)
    → next_state s t ≡ ok s'
    → Legal s t s'
unfolding next_state is_open
next_state_sound s t s' h = grind (arith, take_over, close, recover, again)

next_state_complete :
    {s : IncidentState} {t : IncidentTransition} {s' : IncidentState}
    → Legal s t s'
    → next_state s t ≡ ok s'
unfolding next_state is_open
next_state_complete (take_over h) = ground arith
next_state_complete (close s) = ground arith
next_state_complete (recover s) = ground arith
next_state_complete (again h) = ground arith

-- The code accepts exactly the steps of the diagram, and a rejection names the state and the
-- transition that were asked for.
pub next_state-iff-Legal :
    (s : IncidentState) (t : IncidentTransition)
    → ((s' : IncidentState) → (next_state s t ≡ ok s') ↔ Legal s t s')
      × ((e : TransitionError) → next_state s t ≡ err e → (e.from ≡ s) × (e.transition ≡ t))
unfolding next_state
next_state-iff-Legal s t =
    (λ s'. (next_state_sound s t s', next_state_complete), λ e h. ground arith)

-- A rejected transition leaves the incident where it was.
unfoldable pub after : IncidentState → Outcome → IncidentState
after s (ok s') = s'
after s (err e) = s

unfoldable pub run : IncidentState → List IncidentTransition → IncidentState
unfolding next_state after
run s [] = s
run s (t ∷ ts) = run (after s (next_state s t)) ts

-- Among the transitions there is a reopening.
abbrev pub Reopens : List IncidentTransition → Type 0
Reopens [] = ⊥
Reopens (t ∷ ts) = (t ≡ reopen) ⊎ Reopens ts

step_resolved :
    (t : IncidentTransition)
    → (t ≡ reopen)
      ⊎ (after IncidentState.resolved (next_state IncidentState.resolved t)
          ≡ IncidentState.resolved)
unfolding next_state after
step_resolved t = ground arith

-- Whatever is requested of a resolved incident, it stays resolved until it is reopened.
pub run-resolved :
    (ts : List IncidentTransition)
    → (run IncidentState.resolved ts ≡ IncidentState.resolved) ⊎ Reopens ts
unfolding run
run-resolved [] = inl refl
run-resolved (t ∷ ts) = elim (step_resolved t) [
  | inl e ↦ inr (inl e)
  | inr e ↦ rw e (elim (run-resolved ts) [ inl h ↦ inl h | inr h ↦ inr (inr h) ])
]
