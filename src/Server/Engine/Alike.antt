-- ===== src/Server/Engine/Alike.antt =====
-- What the sweeps of bin/status-server/src/escalation_engine.rs read of an incident: its id and its end.
use statuspage.Base.{
  ◌≡◌, refl, sym, ap, ◌∙◌, ◌++◌, Option, none, some, List, [], ◌∷◌, find, ℤ, leb_ℤ, ◌&&◌,
  Option-cases, inl, inr,
}
use statuspage.Base.Dict.{Dict, get}
use statuspage.Domain.Time.{Uuid, DateTime}
use statuspage.Domain.Incident.{Incident}
use statuspage.Domain.Escalation.{
  EscalationStep, EscalationPolicy, EscalationDecision, page, exhausted, next_step,
  IncidentEscalationState,
}
use statuspage.Storage.Memory.{MemoryStorage, Result, ok, err}
use statuspage.Storage.Incidents.{get_incident}
use statuspage.Storage.Escalation.{
  get_escalation_policy, upsert_escalation_state, delete_escalation_state,
  list_due_escalation_states,
}
use statuspage.Server.Engine.{
  Page, Paged, stop, page_step, follow, escalate, advance_state, advance_all, sweep, pages_of,
}

-- Neither is there, or both are, with the same id and end.
abbrev pub SameEnd : Option Incident → Option Incident → Type 0
SameEnd none none = Unit
SameEnd none (some j) = ⊥
SameEnd (some i) none = ⊥
SameEnd (some i) (some j) = (i.id ≡ j.id) × (i.ended_at ≡ j.ended_at)

abbrev pub with_incidents : Dict Incident → MemoryStorage → MemoryStorage
with_incidents d m = record m { incidents = d }

module _ (d e : Dict Incident) (same : (k : Uuid) → SameEnd (get k d) (get k e)) where
  -- On either of the two maps, the step sends the same pages and leaves the same storage around the map.
  abbrev Agrees : (MemoryStorage → Paged) → MemoryStorage → Type 0
  Agrees step m =
      (x : MemoryStorage) × (p : List Page) × (r : Result (Unit {0})) × (step (with_incidents d m)
        ≡ record { storage = with_incidents d x; pages = p; result = r })
      × (step (with_incidents e m) ≡ record { storage = with_incidents e x; pages = p; result = r })

  module _ (now : DateTime) (state : IncidentEscalationState) (m : MemoryStorage) where
    stop-Agrees : Agrees (stop state) m
    unfolding stop delete_escalation_state
    stop-Agrees = (delete_escalation_state state.incident_id m, [], ok tt, refl, refl)

    -- The step, with the incident of each map.
    abbrev Pair : (Incident → MemoryStorage → Paged) → Incident → Incident → Type 0
    Pair step i j =
        (x : MemoryStorage) × (p : List Page) × (r : Result (Unit {0})) × (step i
            (with_incidents d m)
          ≡ record { storage = with_incidents d x; pages = p; result = r })
        × (step j (with_incidents e m)
            ≡ record { storage = with_incidents e x; pages = p; result = r })

    module _ (i j : Incident) (ids : i.id ≡ j.id) where
      page_step-Pair :
          (level round delay_secs : ℤ) (step : Option EscalationStep)
          → Pair (λ k. page_step now k level round delay_secs step state) i j
      unfolding page_step stop delete_escalation_state upsert_escalation_state
      page_step-Pair level round delay_secs none = stop-Agrees
      page_step-Pair level round delay_secs (some step) =
          let left = page_step now i level round delay_secs (some step) state m in
          (left.storage, left.pages, ok tt, refl, rw (sym ids) refl)

      escalate-Pair :
          (policy : Result EscalationPolicy) → Pair (λ k. escalate now k policy state) i j
      unfolding escalate follow
      escalate-Pair (err x) = (m, [], err x, refl, refl)
      escalate-Pair (ok policy) =
          go (next_step policy.steps policy.repeat_count state.current_level state.current_round)
        where
          go : (decision : EscalationDecision) → Pair (λ k. follow now k policy decision state) i j
          go exhausted = stop-Agrees
          go (page level round delay_secs) =
              page_step-Pair level round delay_secs
                (find (λ s. leb_ℤ s.level level && leb_ℤ level s.level) policy.steps)

    -- The advance, once the incidents are looked up.
    advance_found :
        (a b : Option Incident)
        → get state.incident_id d ≡ a
        → get state.incident_id e ≡ b
        → SameEnd a b
        → Agrees (advance_state now state) m
    unfolding advance_state get_incident get_escalation_policy escalate-Pair page_step-Pair
    advance_found none none x y h =
        let (n, p, r, f, g) = stop-Agrees in
        (n, p, r, rw (advance_state, get_incident, x) f, rw (advance_state, get_incident, y) g)
    advance_found none (some j) x y h = absurd h
    advance_found (some i) none x y h = absurd h
    advance_found (some i) (some j) x y h = elim (Option-cases i.ended_at) [
      | inl o ↦
          let open_too : j.ended_at ≡ none = sym h.1 ∙ o in
          let (n, p, r, f, g) = escalate-Pair i j h.0 (get_escalation_policy state.policy_id m) in
          (
            n,
            p,
            r,
            rw (advance_state, get_incident, x, o) f,
            rw (advance_state, get_incident, y, open_too) g,
          )
      | inr (t, c) ↦
          let ended_too : j.ended_at ≡ some t = sym h.1 ∙ c in
          let (n, p, r, f, g) = stop-Agrees in
          (
            n,
            p,
            r,
            rw (advance_state, get_incident, x, c) f,
            rw (advance_state, get_incident, y, ended_too) g,
          )
    ]

    advance_state-Agrees : Agrees (advance_state now state) m
    advance_state-Agrees =
        advance_found (get state.incident_id d) (get state.incident_id e) refl refl
          (same state.incident_id)

  advance_all-Agrees :
      (now : DateTime) (states : List IncidentEscalationState) (m : MemoryStorage)
      → Agrees (advance_all now states) m
  unfolding advance_all
  advance_all-Agrees now [] m = (m, [], ok tt, refl, refl)
  advance_all-Agrees now (s ∷ states) m =
      let (x, p, r, f, g) = advance_state-Agrees now s m in
      let (y, q, t, k, l) = advance_all-Agrees now states x in
      (y, p ++ q, ok tt, rw (f, k) refl, rw (g, l) refl)

  sweep-Agrees : (now : DateTime) (m : MemoryStorage) → Agrees (sweep now) m
  unfolding sweep list_due_escalation_states
  sweep-Agrees now m = advance_all-Agrees now (list_due_escalation_states now m) m

  pub pages_of-same :
      (times : List DateTime) (m : MemoryStorage)
      → pages_of times (with_incidents d m) ≡ pages_of times (with_incidents e m)
  unfolding pages_of
  pages_of-same [] m = refl
  pages_of-same (now ∷ times) m =
      let (x, p, r, f, g) = sweep-Agrees now m in
      rw (f, g) (ap (λ ps. p ++ ps) (pages_of-same times x))
