-- ===== src/Server/Background/Kept.antt =====
-- What a sweep of `run_background_sweep` in bin/status-server/src/incident_writer.rs keeps.
use statuspage.Base.{Bool-cases, inl, inr, true, Option, none, some, List, [], ◌∷◌}
use statuspage.Base.Dict.{Dict, get}
use statuspage.Domain.Time.{Uuid}
use statuspage.Domain.Monitor.{CheckResult}
use statuspage.Storage.Memory.{MemoryStorage}
use statuspage.Storage.Maintenance.{is_target_in_active_maintenance}
use statuspage.Storage.Results.{list_targets, recent_results_for_targets}
use statuspage.Storage.Incidents.Single.{IsSingle}
use statuspage.Server.Dispatch.{Surroundings}
use statuspage.Server.Writer.{lookback}
use statuspage.Server.Writer.Effect.{decide_and_apply-IsSingle}
use statuspage.Server.Background.{
  evaluate_results, sweep_targets, enabled_targets, run_background_sweep,
}

evaluate_results-IsSingle :
    (env : Surroundings) (target_id : Uuid) (results : Option (List CheckResult))
    (m : MemoryStorage)
    → IsSingle m.incidents
    → IsSingle (evaluate_results env target_id results m).storage.incidents
unfolding evaluate_results
evaluate_results-IsSingle env target_id none m h = h
evaluate_results-IsSingle env target_id (some []) m h = h
evaluate_results-IsSingle env target_id (some (r ∷ rs)) m h =
    elim (Bool-cases (is_target_in_active_maintenance env.now target_id m)) [
      | inl y ↦ rw (evaluate_results, y) h
      | inr n ↦ rw (evaluate_results, n) (decide_and_apply-IsSingle env true target_id (r ∷ rs) m h)
    ]

sweep_targets-IsSingle :
    (env : Uuid → Surroundings) (batch : Dict (List CheckResult)) (ids : List Uuid)
    (m : MemoryStorage)
    → IsSingle m.incidents
    → IsSingle (sweep_targets env batch ids m).storage.incidents
unfolding sweep_targets
sweep_targets-IsSingle env batch [] m h = h
sweep_targets-IsSingle env batch (id ∷ ids) m h =
    sweep_targets-IsSingle env batch ids (evaluate_results (env id) id (get id batch) m).storage
      (evaluate_results-IsSingle (env id) id (get id batch) m h)

-- A background sweep over all enabled targets leaves every target at most one open incident and every
-- incident under its id, if that was so before, although it acts on results that it read before its
-- first change.
pub run_background_sweep-IsSingle :
    (env : Uuid → Surroundings) (m : MemoryStorage)
    → IsSingle m.incidents
    → IsSingle (run_background_sweep env m).storage.incidents
unfolding run_background_sweep
run_background_sweep-IsSingle env m h =
    let ids = enabled_targets (list_targets m) in
    sweep_targets-IsSingle env (recent_results_for_targets ids lookback m) ids m h
