-- ===== src/Server/Engine/Justified.antt =====
-- Which incidents a sweep of bin/status-server/src/escalation_engine.rs pages.
use statuspage.Base.{
  ◌≤◌, ◌≡◌, refl, sym, arith, true, false, ◌&&◌, Option, none, some, List, [], ◌∷◌, map, find, ℤ,
  leb_ℤ, ltb, All, All-append, All-filter, filter, filter-passes, All-both, Option-cases, inl, inr,
}
use mathlib.Core.Path.{subst}
use statuspage.Base.Dict.{Dict, get, values, IsKeyed, key-of, stored_under_key}
use statuspage.Base.Sort.{sort_by-All}
use statuspage.Domain.Time.{DateTime}
use statuspage.Domain.Incident.{Incident}
use statuspage.Domain.Escalation.{
  EscalationTarget, EscalationStep, EscalationPolicy, EscalationDecision, page, exhausted,
  next_step, IncidentEscalationState,
}
use statuspage.Storage.Memory.{MemoryStorage, Result, ok, err}
use statuspage.Storage.Incidents.{get_incident}
use statuspage.Storage.Escalation.{
  get_escalation_policy, upsert_escalation_state, delete_escalation_state,
  list_due_escalation_states, is_due,
}
use statuspage.Server.Engine.{
  Page, Paged, stop, page_step, follow, escalate, advance_state, advance_all, sweep,
}

-- The page is for the incident of the state, which is stored and open.
abbrev pub Fits : Dict Incident → IncidentEscalationState → Page → Type 0
Fits incidents state p =
    (p.incident_id ≡ state.incident_id)
    × ((i : Incident) × (get p.incident_id incidents ≡ some i) × (i.ended_at ≡ none))

-- What is true of every page that an advance of `state` sends, and of the storage it leaves.
abbrev pub Fit : Dict Incident → IncidentEscalationState → Paged → Type 0
Fit incidents state e = All (Fits incidents state) e.pages × (e.storage.incidents ≡ incidents)

module _ (now : DateTime) (state : IncidentEscalationState) (m : MemoryStorage) where
  stop-Fit : Fit m.incidents state (stop state m)
  unfolding stop delete_escalation_state
  stop-Fit = (tt, refl)

  module _ (i : Incident) (same : i.id ≡ state.incident_id) (at : get i.id m.incidents ≡ some i)
      (ongoing : i.ended_at ≡ none) where
    targets-Fits :
        (ts : List EscalationTarget)
        → All (Fits m.incidents state) (map (λ t. record { incident_id = i.id; target = t }) ts)
    targets-Fits [] = tt
    targets-Fits (t ∷ ts) = ((same, (i, at, ongoing)), targets-Fits ts)

    page_step-Fit :
        (level round delay_secs : ℤ) (step : Option EscalationStep)
        → Fit m.incidents state (page_step now i level round delay_secs step state m)
    unfolding page_step upsert_escalation_state
    page_step-Fit level round delay_secs none = stop-Fit
    page_step-Fit level round delay_secs (some step) = (targets-Fits step.targets, refl)

    escalate-Fit :
        (policy : Result EscalationPolicy) → Fit m.incidents state (escalate now i policy state m)
    unfolding escalate
    escalate-Fit (err e) = (tt, refl)
    escalate-Fit (ok policy) =
        go (next_step policy.steps policy.repeat_count state.current_level state.current_round)
      where
        go : (d : EscalationDecision) → Fit m.incidents state (follow now i policy d state m)
        go exhausted = stop-Fit
        go (page level round delay_secs) =
            page_step-Fit level round delay_secs
              (find (λ s. leb_ℤ s.level level && leb_ℤ level s.level) policy.steps)

  pub advance_state-Fit :
      IsKeyed (λ i. i.id) m.incidents → Fit m.incidents state (advance_state now state m)
  unfolding advance_state get_incident
  advance_state-Fit keyed = elim (Option-cases (get state.incident_id m.incidents)) [
    | inl e ↦ rw (advance_state, get_incident, e) stop-Fit
    | inr (i, e) ↦ elim (Option-cases i.ended_at) [
      | inl o ↦
          let same : i.id ≡ state.incident_id =
            key-of (λ x. x.id) m.incidents keyed state.incident_id i e in
          rw (advance_state, get_incident, e, o)
            (escalate-Fit i same (subst (λ k. get k m.incidents ≡ some i) (sym same) e) o
              (get_escalation_policy state.policy_id m))
      | inr (t, c) ↦ rw (advance_state, get_incident, e, c) stop-Fit
    ]
  ]

-- The page's incident is stored and open, and an escalation state of it is stored that is due and not
-- acknowledged.
pub record IsJustified (now : DateTime) (m : MemoryStorage) (p : Page) : Type 0 where
  pub incident : Incident
  pub state : IncidentEscalationState
  pub stored : get p.incident_id m.incidents ≡ some incident
  pub ongoing : incident.ended_at ≡ none
  pub escalating : get p.incident_id m.escalation_states ≡ some state
  pub unacked : state.acked ≡ false
  pub due : state.next_check_at ≤ now

module _ (now : DateTime) (m : MemoryStorage) where
  -- The state that the sweep read stands in the storage, and is due.
  abbrev pub Listed : IncidentEscalationState → Type 0
  Listed s = (get s.incident_id m.escalation_states ≡ some s) × (is_due now s ≡ true)

  justify :
      (s : IncidentEscalationState)
      → Listed s
      → (p : Page) → Fits m.incidents s p
      → IsJustified now m p
  justify s h p (same, (i, at, ongoing)) = record {
    incident = i;
    state = s;
    stored = at;
    ongoing = ongoing;
    escalating = rw (same, h.0);
    unacked = ground (arith, h.1);
    due = ground (arith, h.1);
  }

  justify-All :
      (s : IncidentEscalationState)
      → Listed s
      → (ps : List Page) → All (Fits m.incidents s) ps
      → All (IsJustified now m) ps
  justify-All s h [] fits = tt
  justify-All s h (p ∷ ps) fits = (justify s h p fits.0, justify-All s h ps fits.1)

  advance_all-IsJustified :
      (states : List IncidentEscalationState) (current : MemoryStorage)
      → current.incidents ≡ m.incidents
      → IsKeyed (λ i. i.id) m.incidents
      → All Listed states
      → All (IsJustified now m) (advance_all now states current).pages
  unfolding advance_all
  advance_all-IsJustified [] current e keyed h = tt
  advance_all-IsJustified (s ∷ states) current e keyed h =
      let first = advance_state now s current in
      let fit : Fit m.incidents s first =
        subst (λ d. Fit d s first) e
          (advance_state-Fit now s current (subst (IsKeyed (λ i. i.id)) (sym e) keyed)) in
      All-append (IsJustified now m) first.pages (advance_all now states first.storage).pages
        (justify-All s h.0 first.pages fit.0)
        (advance_all-IsJustified states first.storage fit.1 keyed h.1)

  pub due_states-Listed :
      IsKeyed (λ s. s.incident_id) m.escalation_states
      → All Listed (list_due_escalation_states now m)
  unfolding list_due_escalation_states
  due_states-Listed keyed =
      sort_by-All (λ a b. ltb a.next_check_at b.next_check_at) Listed
        (filter (is_due now) (values m.escalation_states))
        (All-both (λ s. get s.incident_id m.escalation_states ≡ some s) (λ s. is_due now s ≡ true)
          (filter (is_due now) (values m.escalation_states))
          (All-filter (λ s. get s.incident_id m.escalation_states ≡ some s) (is_due now)
            (values m.escalation_states)
            (stored_under_key (λ s. s.incident_id) m.escalation_states keyed))
          (filter-passes (is_due now) (values m.escalation_states)))

  -- A sweep pages only incidents that are stored and open and whose escalation is due and not
  -- acknowledged, if incidents and escalation states are stored under their incident's id.
  pub sweep-IsJustified :
      IsKeyed (λ i. i.id) m.incidents
      → IsKeyed (λ s. s.incident_id) m.escalation_states
      → All (IsJustified now m) (sweep now m).pages
  unfolding sweep
  sweep-IsJustified incidents_keyed states_keyed =
      advance_all-IsJustified (list_due_escalation_states now m) m refl incidents_keyed
        (due_states-Listed states_keyed)
