-- ===== src/Server/Background.antt =====
-- The background evaluator: `run_background_sweep` of bin/status-server/src/incident_writer.rs.
pub mod Kept
pub mod Batch
use statuspage.Base.{
  Bool, true, Option, none, some, List, [], ◌∷◌, ◌++◌, map, filter, if◌then◌else◌,
}
use statuspage.Base.Dict.{Dict, get}
use statuspage.Domain.Time.{Uuid}
use statuspage.Domain.Monitor.{CheckResult, Target}
use statuspage.Storage.Memory.{MemoryStorage, ok}
use statuspage.Storage.Maintenance.{is_target_in_active_maintenance}
use statuspage.Storage.Results.{list_targets, recent_results_for_targets}
use statuspage.Server.Dispatch.{Surroundings}
use statuspage.Server.Writer.{Effects, idle, lookback, decide_and_apply_incident_state}

-- A target without results in the batch is passed over, and so is one under maintenance.
unfoldable pub evaluate_results :
    Surroundings → Uuid → Option (List CheckResult) → MemoryStorage → Effects
unfolding decide_and_apply_incident_state
evaluate_results env target_id none m = idle m
evaluate_results env target_id (some []) m = idle m
evaluate_results env target_id (some (r ∷ rs)) m =
    if is_target_in_active_maintenance env.now target_id m
    then idle m
    else decide_and_apply_incident_state env true target_id (r ∷ rs) m

-- The failure of one target does not stop the sweep. Each target has its own surroundings, since the
-- clock is read and ids are drawn for each.
unfoldable pub sweep_targets :
    (Uuid → Surroundings) → Dict (List CheckResult) → List Uuid → MemoryStorage → Effects
unfolding evaluate_results
sweep_targets env batch [] m = idle m
sweep_targets env batch (id ∷ ids) m =
    let step = evaluate_results (env id) id (get id batch) m in
    let rest = sweep_targets env batch ids step.storage in
    record { storage = rest.storage; notices = step.notices ++ rest.notices; result = ok tt }

abbrev pub enabled_targets : List Target → List Uuid
enabled_targets targets = map (λ t. t.id) (filter (λ t. t.enabled) targets)

unfoldable pub run_background_sweep : (Uuid → Surroundings) → MemoryStorage → Effects
unfolding sweep_targets recent_results_for_targets
run_background_sweep env m =
    let ids = enabled_targets (list_targets m) in
    sweep_targets env (recent_results_for_targets ids lookback m) ids m
