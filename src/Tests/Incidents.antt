-- ===== src/Tests/Incidents.antt =====
-- The theorems on incidents at concrete inputs.
use statuspage.Base.{
  is_some, Bool-cases, inl, inr, ◌==◌, ◌+◌, ◌*◌, ◌≤◌, ◌<◌, ◌≡◌, refl, arith, ◌↔◌, none, some, List,
  [], ◌∷◌, ◌++◌, true, length,
}
use statuspage.Base.Dict.{get}
use statuspage.Domain.Time.{nanos, secs_between}
use statuspage.Domain.Status.{up, down, error, incident_opened}
use statuspage.Domain.Incident.{Incident, Observation}
use statuspage.Domain.Incident.Kinds.{IncidentState}
use statuspage.Domain.Incident.Lifecycle.{
  acknowledge, TransitionError, ok, err, next_state, Legal, next_state-iff-Legal,
}
use statuspage.Domain.Incident.Coalesce.{coalesce_incidents}
use statuspage.Domain.Incident.Coalesce.Laws.{Run, Segments, summaries, coalesce_incidents-Segments}
use statuspage.Domain.Incident.Coalesce.Counts.{coalesce_incidents-lone_check}
use statuspage.Domain.Incident.Downtime.{
  confirmed_downtime_secs, confirmed_downtime-le-window, confirmed_downtime_split,
}
use statuspage.Domain.Silence.{matches, is_active_at}
use statuspage.Domain.Silence.Laws.{Covers, matches-iff-Covers}
use statuspage.Storage.Incidents.{apply_incident_ops}
use statuspage.Storage.Incidents.Ops.{
  AllConsistent, apply_incident_ops-AllConsistent, Kept, apply_incident_ops-Kept,
}
use statuspage.Tests.Data.{outage, burning_site, requested, night_silence}

-- A lone bad check, a good one, and a run of two that goes on.
abbrev stream : List Observation
stream = (10, down, none) ∷ (20, up, none) ∷ (30, error, some "refused") ∷ (40, down, none) ∷ []

coalesce_incidents-Segments_example :
    (rs : List Run) × Segments stream rs
    × (coalesce_incidents (λ n. n) 7 stream ≡ summaries (λ n. n) 7 0 rs)
coalesce_incidents-Segments_example = coalesce_incidents-Segments (λ n. n) 7 stream

abbrev no_more : List Observation
no_more = []

abbrev quiet_start : List Observation
quiet_start = (5, up, none) ∷ []

coalesce_incidents-lone_check_example :
    (done : List Incident) × (inc : Incident) × (rest : List Incident) × (coalesce_incidents
        (λ n. n)
        7
        (quiet_start ++ ((10, down, none) ∷ no_more ++ (20, up, none) ∷ []))
      ≡ done ++ inc ∷ rest)
    × (inc.started_at ≡ 10)
    × ((inc.ended_at ≡ none) ↔ (no_more ≡ []))
    × (is_some inc.duration_secs ≡ is_some inc.ended_at)
coalesce_incidents-lone_check_example =
    coalesce_incidents-lone_check (λ n. n) 7 quiet_start (10, down, none) no_more (20, up, none) []
      refl refl tt refl

-- Two outages in a row, in seconds.
abbrev outages : List Incident
outages =
    outage 10 (20 * nanos) (some (30 * nanos)) (some 10) ∷ outage 11 (50 * nanos) none none ∷ []

confirmed_downtime-le-window_example :
    confirmed_downtime_secs outages (10 * nanos) (90 * nanos) (80 * nanos)
    ≤ secs_between (10 * nanos) (90 * nanos)
confirmed_downtime-le-window_example =
    confirmed_downtime-le-window outages (10 * nanos) (90 * nanos) (80 * nanos)
      (omega arith, omega arith, (omega arith, omega arith, tt))

confirmed_downtime_split_example :
    (confirmed_downtime_secs outages 10 25 80 + confirmed_downtime_secs outages 25 90 80
      ≤ confirmed_downtime_secs outages 10 90 80)
    × (confirmed_downtime_secs outages 10 90 80
        ≤ confirmed_downtime_secs outages 10 25 80
          + confirmed_downtime_secs outages 25 90 80
          + length outages)
confirmed_downtime_split_example =
    confirmed_downtime_split outages 10 25 90 80 (omega arith) (omega arith)

next_state-iff-Legal_example :
    ((s' : IncidentState)
      → (next_state IncidentState.triggered acknowledge ≡ ok s')
        ↔ Legal IncidentState.triggered acknowledge s')
    × ((e : TransitionError)
        → next_state IncidentState.triggered acknowledge ≡ err e
        → (e.from ≡ IncidentState.triggered) × (e.transition ≡ acknowledge))
next_state-iff-Legal_example = next_state-iff-Legal IncidentState.triggered acknowledge

apply_incident_ops-Kept_example :
    Kept 100 11 burning_site
      (apply_incident_ops 100 11 (requested "resolve") burning_site).0
      (apply_incident_ops 100 11 (requested "resolve") burning_site).1
apply_incident_ops-Kept_example = apply_incident_ops-Kept 100 11 (requested "resolve") burning_site

burning_site-AllConsistent : AllConsistent burning_site
unfolding get
burning_site-AllConsistent id i at = elim (Bool-cases (10 == id)) [
  | inl y ↦ ground (arith, at)
  | inr n ↦ ground (arith, at)
]

apply_incident_ops-AllConsistent_example :
    AllConsistent (apply_incident_ops 100 11 (requested "resolve") burning_site).0
unfolding get
apply_incident_ops-AllConsistent_example =
    apply_incident_ops-AllConsistent 100 11 (requested "resolve") burning_site
      burning_site-AllConsistent

matches-iff-Covers_example :
    ((matches night_silence 7 (some 3) incident_opened ≡ true)
      ↔ Covers night_silence 7 (some 3) incident_opened)
    × ((is_active_at night_silence 50 ≡ true) ↔ ((10 ≤ 50) × (50 < 90)))
matches-iff-Covers_example = matches-iff-Covers night_silence 7 (some 3) incident_opened 50
