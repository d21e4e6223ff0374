-- ===== src/Server/Engine/Quiet.antt =====
-- An incident without an unacknowledged escalation state stays so through the sweeps of
-- bin/status-server/src/escalation_engine.rs, and is not paged.
use statuspage.Base.{
  ◌≡◌, ◌≢◌, refl, sym, arith, ◌==◌, true, false, ◌&&◌, Option, none, some, List, [], ◌∷◌, find, ℤ,
  leb_ℤ, All, All-append, All-map, Option-cases, inl, inr,
}
use mathlib.Core.Path.{subst}
use statuspage.Base.Dict.{
  Dict, get, insert, remove, get-insert, get-remove, IsKeyed, insert-IsKeyed, remove-IsKeyed,
}
use statuspage.Domain.Time.{Uuid, DateTime}
use statuspage.Domain.Incident.{Incident}
use statuspage.Domain.Escalation.{
  EscalationStep, EscalationPolicy, EscalationDecision, page, exhausted, next_step,
  IncidentEscalationState,
}
use statuspage.Storage.Memory.{MemoryStorage, Result, ok, err}
use statuspage.Storage.Incidents.{get_incident}
use statuspage.Storage.Escalation.{
  get_escalation_policy, upsert_escalation_state, delete_escalation_state,
  list_due_escalation_states,
}
use statuspage.Server.Engine.{
  Page, stop, paged_state, page_step, follow, escalate, advance_state, advance_all, sweep, pages_of,
}
use statuspage.Server.Engine.Justified.{
  IsJustified, sweep-IsJustified, advance_state-Fit, Listed, due_states-Listed,
}

-- No unacknowledged escalation state of the incident is stored, and all are stored under their
-- incident's id.
pub record IsQuiet (id : Uuid) (d : Dict IncidentEscalationState) : Type 0 where
  pub keyed : IsKeyed (λ s. s.incident_id) d
  pub quiet : (s : IncidentEscalationState) → get id d ≡ some s → s.acked ≡ true

module _ (id k : Uuid) (other : k ≢ id) (d : Dict IncidentEscalationState) (h : IsQuiet id d) where
  remove-IsQuiet : IsQuiet id (remove k d)
  remove-IsQuiet = record {
    keyed = remove-IsKeyed (λ s. s.incident_id) k d h.keyed;
    quiet = λ s at.
        let apart : (k == id) ≡ false = ground arith in
        let same = get-remove k id d in
        let there : get id d ≡ some s = ground arith in h.quiet s there;
  }

  insert-IsQuiet :
      (x : IncidentEscalationState) → x.incident_id ≡ k → IsQuiet id (insert x.incident_id x d)
  insert-IsQuiet x key = record {
    keyed = insert-IsKeyed (λ s. s.incident_id) x d h.keyed;
    quiet = λ s at.
        let apart : (x.incident_id == id) ≡ false = ground arith in
        let same = get-insert x.incident_id id x d in
        let there : get id d ≡ some s = ground arith in h.quiet s there;
  }

module _ (id : Uuid) (now : DateTime) (state : IncidentEscalationState)
    (other : state.incident_id ≢ id) (m : MemoryStorage) (h : IsQuiet id m.escalation_states) where
  stop-IsQuiet : IsQuiet id (stop state m).storage.escalation_states
  unfolding stop delete_escalation_state
  stop-IsQuiet = remove-IsQuiet id state.incident_id other m.escalation_states h

  page_step-IsQuiet :
      (i : Incident) (level round delay_secs : ℤ) (step : Option EscalationStep)
      → IsQuiet id (page_step now i level round delay_secs step state m).storage.escalation_states
  unfolding page_step upsert_escalation_state paged_state
  page_step-IsQuiet i level round delay_secs none = stop-IsQuiet
  page_step-IsQuiet i level round delay_secs (some step) =
      insert-IsQuiet id state.incident_id other m.escalation_states h
        (paged_state now level round delay_secs state) refl

  escalate-IsQuiet :
      (i : Incident) (policy : Result EscalationPolicy)
      → IsQuiet id (escalate now i policy state m).storage.escalation_states
  unfolding escalate
  escalate-IsQuiet i (err e) = h
  escalate-IsQuiet i (ok policy) =
      go (next_step policy.steps policy.repeat_count state.current_level state.current_round)
    where
      go :
          (d : EscalationDecision)
          → IsQuiet id (follow now i policy d state m).storage.escalation_states
      go exhausted = stop-IsQuiet
      go (page level round delay_secs) =
          page_step-IsQuiet i level round delay_secs
            (find (λ s. leb_ℤ s.level level && leb_ℤ level s.level) policy.steps)

  advance_state-IsQuiet : IsQuiet id (advance_state now state m).storage.escalation_states
  unfolding advance_state get_incident
  advance_state-IsQuiet = elim (Option-cases (get state.incident_id m.incidents)) [
    | inl e ↦ rw (advance_state, get_incident, e) stop-IsQuiet
    | inr (i, e) ↦ elim (Option-cases i.ended_at) [
      | inl o ↦
          rw (advance_state, get_incident, e, o)
            (escalate-IsQuiet i (get_escalation_policy state.policy_id m))
      | inr (t, c) ↦ rw (advance_state, get_incident, e, c) stop-IsQuiet
    ]
  ]

-- The incident is quiet, and the incidents are stored under their ids.
abbrev pub IsSilent : Uuid → MemoryStorage → Type 0
IsSilent id m = IsKeyed (λ i. i.id) m.incidents × IsQuiet id m.escalation_states

advance_all-IsSilent :
    (id : Uuid) (now : DateTime) (states : List IncidentEscalationState) (m : MemoryStorage)
    → All (λ s. s.incident_id ≢ id) states
    → IsSilent id m
    → IsSilent id (advance_all now states m).storage
unfolding advance_all
advance_all-IsSilent id now [] m others h = h
advance_all-IsSilent id now (s ∷ states) m others h =
    let fit = advance_state-Fit now s m h.0 in
    advance_all-IsSilent id now states (advance_state now s m).storage others.1
      (subst (IsKeyed (λ i. i.id)) (sym fit.1) h.0, advance_state-IsQuiet id now s others.0 m h.1)

sweep-IsSilent :
    (id : Uuid) (now : DateTime) (m : MemoryStorage)
    → IsSilent id m
    → IsSilent id (sweep now m).storage
unfolding sweep
sweep-IsSilent id now m h =
    advance_all-IsSilent id now (list_due_escalation_states now m) m
      (All-map (Listed now m) (λ s. s.incident_id ≢ id) differs (list_due_escalation_states now m)
        (due_states-Listed now m h.1.keyed))
      h
  where
    differs : (s : IncidentEscalationState) → Listed now m s → s.incident_id ≢ id
    differs s l same =
        let acked : s.acked ≡ true =
          h.1.quiet s (subst (λ k. get k m.escalation_states ≡ some s) same l.0) in
        let due = l.1 in absurd (ground arith)

silent_sweep :
    (id : Uuid) (now : DateTime) (m : MemoryStorage)
    → IsSilent id m
    → All (λ p. p.incident_id ≢ id) (sweep now m).pages
silent_sweep id now m h =
    All-map (IsJustified now m) (λ p. p.incident_id ≢ id) contradicts (sweep now m).pages
      (sweep-IsJustified now m h.0 h.1.keyed)
  where
    contradicts : (p : Page) → IsJustified now m p → p.incident_id ≢ id
    contradicts p j same =
        let acked : j.state.acked ≡ true =
          h.1.quiet j.state
            (subst (λ k. get k m.escalation_states ≡ some j.state) same j.escalating) in
        let unacked : j.state.acked ≡ false = j.unacked in absurd (cc)

pub silent_sweeps :
    (id : Uuid) (times : List DateTime) (m : MemoryStorage)
    → IsSilent id m
    → All (λ p. p.incident_id ≢ id) (pages_of times m)
unfolding pages_of
silent_sweeps id [] m h = tt
silent_sweeps id (now ∷ times) m h =
    All-append (λ p. p.incident_id ≢ id) (sweep now m).pages (pages_of times (sweep now m).storage)
      (silent_sweep id now m h)
      (silent_sweeps id times (sweep now m).storage (sweep-IsSilent id now m h))
