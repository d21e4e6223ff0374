-- ===== src/Tests/Escalations.antt =====
-- The theorems on escalation at concrete inputs.
use statuspage.Base.{suc, ◌≡◌, ◌≢◌, refl, arith, some, [], ◌∷◌, pos, pos_part, All, find}
use statuspage.Base.Dict.{get}
use statuspage.Domain.Incident.{Incident}
use statuspage.Domain.Status.{investigating}
use statuspage.Domain.Incident.Lifecycle.{next_state}
use statuspage.Domain.Escalation.{next_step}
use statuspage.Domain.Escalation.Ladder.{walk, rounds, walk_complete}
use statuspage.Domain.Escalation.Order.{next_step-hidden_rung}
use statuspage.Server.Engine.{pages_of, sweep}
use statuspage.Server.Engine.Justified.{IsJustified, sweep-IsJustified}
use statuspage.Server.Api.{acknowledge, acknowledge_incident, apply_incident_ops}
use statuspage.Server.Api.Acknowledge.{apply_ops-ends_paging}
use statuspage.Server.Api.Endpoint.{acknowledge_incident-same_pages}
use statuspage.Tests.Data.{burning_site, ongoing_outage, rung, requested}

walk_complete_example :
    walk 5 (rung 41 1 ∷ rung 42 2 ∷ []) (pos 1) (pos 0) (pos 0)
    ≡ some (rounds (rung 41 1 ∷ rung 42 2 ∷ []) (suc (pos_part (pos 1))) 0)
walk_complete_example =
    walk_complete (rung 41 1 ∷ rung 42 2 ∷ []) (pos 1) 5 (omega arith, (omega arith, tt))
      (omega arith)

next_step-hidden_rung_example : pos 2 ≢ pos 1
unfolding next_step find
next_step-hidden_rung_example =
    next_step-hidden_rung [] (rung 42 2) [] (rung 41 1) [] (pos 1) (pos 0) (pos 0) (pos 2) (pos 0)
      (pos 60) (omega arith) tt refl

sweep-IsJustified_example : All (IsJustified 100 burning_site) (sweep 100 burning_site).pages
unfolding get
sweep-IsJustified_example =
    sweep-IsJustified 100 burning_site (refl, refl, (refl, refl, tt)) (refl, refl, tt)

abbrev noted_outage : Incident
noted_outage = record ongoing_outage {
  updated_at = some 100;
  updates = record { posted_at = 100; phase = investigating; message = "on it" } ∷ [];
}

apply_ops-ends_paging_example :
    All
      (λ p. p.incident_id ≢ 11)
      (pages_of
        (200 ∷ 400 ∷ [])
        (apply_incident_ops 100 11 (requested "acknowledge") burning_site).0)
unfolding get apply_incident_ops next_state
apply_ops-ends_paging_example =
    apply_ops-ends_paging 100 (200 ∷ 400 ∷ []) 11 acknowledge (requested "acknowledge") burning_site
      noted_outage refl refl refl (refl, refl, (refl, refl, tt)) (refl, refl, tt)

acknowledge_incident-same_pages_example :
    pages_of (200 ∷ 400 ∷ []) (acknowledge_incident 100 11 burning_site).0
    ≡ pages_of (200 ∷ 400 ∷ []) burning_site
acknowledge_incident-same_pages_example =
    acknowledge_incident-same_pages 100 (200 ∷ 400 ∷ []) 11 burning_site
