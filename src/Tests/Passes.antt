-- ===== src/Tests/Passes.antt =====
-- The incident writer's theorems at concrete inputs.
use statuspage.Base.{
  ◌+◌, is_some, ◌≡◌, refl, sym, arith, ◌∙◌, none, some, [], ◌∷◌, ◌++◌, true, false, ◌==◌,
  Bool-cases, filter, take_while, inl, inr,
}
use statuspage.Base.Dict.{get, values}
use statuspage.Base.Sort.{sort_by}
use statuspage.Storage.Incidents.{find_open_incident_for_target}
use statuspage.Domain.Time.{Uuid}
use statuspage.Domain.Incident.{Incident}
use statuspage.Domain.Status.{major, up, down}
use statuspage.Storage.Incidents.Single.{IsSingle}
use statuspage.Server.Writer.{
  lookback, evaluate_target, idle, decide_and_apply_incident_state, bad_run, good_run,
}
use statuspage.Server.Writer.Effect.{decide_and_apply-IsSingle}
use statuspage.Server.Writer.Settled.{decide_and_apply-settled}
use statuspage.Storage.Results.{recent_results_for_targets}
use statuspage.Server.Background.{run_background_sweep, evaluate_results}
use statuspage.Server.Background.Batch.{evaluate_results-batch}
use statuspage.Server.Background.Kept.{run_background_sweep-IsSingle}
use statuspage.Server.Writer.Verdict.{decide_and_apply-verdict}
use statuspage.Server.Writer.Times.{close-oldest_up, open-oldest_bad}
use statuspage.Tests.Data.{
  silenced_site, burning_site, calm_site, check, surroundings, ongoing_outage,
}

only_burning :
    (a : Uuid) (i : Incident) → get a burning_site.incidents ≡ some i → i.ended_at ≡ none → a ≡ 11
unfolding get
only_burning a i at ongoing = elim (Bool-cases (10 == a)) [
  | inl y ↦ ground (arith, at)
  | inr n ↦ ground (arith, at)
]

burning_site-IsSingle : IsSingle burning_site.incidents
unfolding get
burning_site-IsSingle = record {
  keyed = (refl, refl, (refl, refl, tt));
  single = λ a b i j at_a at_b same open_i open_j.
      only_burning a i at_a open_i ∙ sym (only_burning b j at_b open_j);
}

all_past : (a : Uuid) (i : Incident) → get a calm_site.incidents ≡ some i → ¬ (i.ended_at ≡ none)
unfolding get
all_past a i at ongoing = ground (arith, at)

calm_site-IsSingle : IsSingle calm_site.incidents
unfolding get
calm_site-IsSingle = record {
  keyed = (refl, refl, tt);
  single = λ a b i j at_a at_b same open_i open_j. absurd (all_past a i at_a open_i);
}

found_burning : find_open_incident_for_target 7 burning_site ≡ some ongoing_outage
unfolding find_open_incident_for_target sort_by filter values
found_burning = refl

none_found : find_open_incident_for_target 7 calm_site ≡ none
unfolding find_open_incident_for_target sort_by filter values
none_found = refl

-- Two bad checks after an `Up` one open an incident.
decide_and_apply-IsSingle_example :
    IsSingle
      (decide_and_apply_incident_state
        (surroundings 100 12)
        true
        7
        (check 90 down ∷ check 80 down ∷ check 70 up ∷ [])
        calm_site).storage.incidents
decide_and_apply-IsSingle_example =
    decide_and_apply-IsSingle (surroundings 100 12) true 7
      (check 90 down ∷ check 80 down ∷ check 70 up ∷ []) calm_site calm_site-IsSingle

decide_and_apply-settled_example :
    decide_and_apply_incident_state
      (surroundings 110 13)
      false
      7
      (check 90 down ∷ check 80 down ∷ [])
      (decide_and_apply_incident_state
        (surroundings 100 12)
        true
        7
        (check 90 down ∷ check 80 down ∷ [])
        calm_site).storage
    ≡ idle
        (decide_and_apply_incident_state
          (surroundings 100 12)
          true
          7
          (check 90 down ∷ check 80 down ∷ [])
          calm_site).storage
unfolding get
decide_and_apply-settled_example =
    decide_and_apply-settled (surroundings 100 12) (surroundings 110 13) true false 7
      (check 90 down ∷ check 80 down ∷ []) calm_site calm_site-IsSingle refl

-- The incident started at 50; the `Up` result at 40, before it, becomes its end.
close-oldest_up_example :
    get 11
      (decide_and_apply_incident_state
        (surroundings 100 12)
        true
        7
        (check 90 up ∷ check 80 up ∷ check 50 down ∷ [] ++ check 40 up ∷ [])
        burning_site).storage.incidents
    ≡ some (record ongoing_outage {
      ended_at = some 40;
      duration_secs = some 0;
      updated_at = some 100;
    })
unfolding good_run take_while
close-oldest_up_example =
    close-oldest_up (surroundings 100 12) true 7 (check 90 up ∷ check 80 up ∷ check 50 down ∷ []) []
      (check 40 up) burning_site ongoing_outage burning_site-IsSingle found_burning refl refl tt

open-oldest_bad_example :
    get 12
      (decide_and_apply_incident_state
        (surroundings 100 12)
        true
        7
        (check 90 down ∷ check 80 down ∷ check 50 up ∷ [] ++ check 40 down ∷ [])
        calm_site).storage.incidents
    ≡ some (record {
      id = 12;
      target_id = 7;
      started_at = 40;
      ended_at = none;
      status = down;
      duration_secs = none;
      check_count = 2;
      error_sample = (check 40 down).error;
      severity = major;
      public_title = some ((surroundings 100 12).title 7);
      public_description = (check 40 down).error;
      created_at = some 100;
      updated_at = some 100;
      updates = [];
      regions_down = [];
      regions_up = [];
    })
unfolding bad_run take_while get
open-oldest_bad_example =
    open-oldest_bad (surroundings 100 12) true 7 (check 90 down ∷ check 80 down ∷ check 50 up ∷ [])
      [] (check 40 down) calm_site refl none_found refl refl tt

decide_and_apply-verdict_example :
    is_some (
      find_open_incident_for_target 7
        (decide_and_apply_incident_state
          (surroundings 100 12)
          true
          7
          (check 90 down ∷ check 80 down ∷ check 70 up ∷ [])
          calm_site).storage)
    ≡ true
unfolding get
decide_and_apply-verdict_example =
    decide_and_apply-verdict (surroundings 100 12) true 7
      (check 90 down ∷ check 80 down ∷ check 70 up ∷ []) calm_site calm_site-IsSingle refl

run_background_sweep-IsSingle_example :
    IsSingle
      (run_background_sweep
        (λ id. surroundings 100 (12 + id))
        (record silenced_site { results = check 90 up ∷ check 80 up ∷ [] })).storage.incidents
run_background_sweep-IsSingle_example =
    run_background_sweep-IsSingle (λ id. surroundings 100 (12 + id))
      (record silenced_site { results = check 90 up ∷ check 80 up ∷ [] }) burning_site-IsSingle

evaluate_results-batch_example :
    evaluate_results
      (surroundings 100 12)
      7
      (get 7 (recent_results_for_targets (5 ∷ 7 ∷ []) lookback silenced_site))
      silenced_site
    ≡ evaluate_target (surroundings 100 12) true 7 silenced_site
evaluate_results-batch_example =
    evaluate_results-batch (surroundings 100 12) (5 ∷ 7 ∷ []) 7 silenced_site (inr (inl refl))
