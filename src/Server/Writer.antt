-- ===== src/Server/Writer.antt =====
-- The incident writer, which opens and closes incidents from check results:
-- bin/status-server/src/incident_writer.rs.
pub mod Effect
pub mod Settled
pub mod Times
pub mod Verdict
use statuspage.Base.{
  ℕ, ◌+◌, ◌*◌, ◌-◌, ◌/◌, Bool, true, false, not, ◌&&◌, Option, none, some, is_none, unwrap_or, List,
  [], ◌∷◌, reverse, leb, if◌then◌else◌, find, take_while, length, head?, ℤ, pos, pos_part, filter,
  map,
}
use statuspage.Base.Dict.{get}
use statuspage.Domain.Time.{Uuid, DateTime, secs_between, nanos}
use statuspage.Domain.Status.{
  CheckStatus, is_up, major, DeliveryReason, incident_opened, incident_resolved,
}
use statuspage.Domain.Incident.{Incident}
use statuspage.Domain.Monitor.{CheckResult, Target}
use statuspage.Domain.Escalation.{IncidentEscalationState, EscalationPolicy}
use statuspage.Storage.Memory.{MemoryStorage, Result, StorageError, ok, err, conflict}
use statuspage.Storage.Incidents.{create_incident, update_incident, find_open_incident_for_target}
use statuspage.Storage.Maintenance.{is_target_in_active_maintenance}
use statuspage.Storage.Results.{get_target, list_targets, list_results, recent_results_for_targets}
use statuspage.Storage.Escalation.{
  get_escalation_policy, upsert_escalation_state, delete_escalation_state,
}
use statuspage.Server.Dispatch.{
  Notice, Surroundings, dispatch_to_target_channels, enqueue_subscriber_deliveries,
}

abbrev pub flap_threshold : ℕ
flap_threshold = 2

abbrev pub lookback : ℕ
lookback = 10

abbrev pub not_up : CheckResult → Bool
not_up r = not (is_up r.status)

abbrev pub was_up : CheckResult → Bool
was_up r = is_up r.status

-- The trailing runs at the newest end of the results, which come oldest first.
unfoldable pub bad_run : List CheckResult → ℕ
bad_run ordered = length (take_while not_up (reverse ordered))

unfoldable pub good_run : List CheckResult → ℕ
good_run ordered = length (take_while was_up (reverse ordered))

-- What a call leaves: the storage, the notices sent, and whether it failed.
pub record Effects : Type 0 where
  pub storage : MemoryStorage
  pub notices : List Notice
  pub result : Result (Unit {0})

abbrev pub idle : MemoryStorage → Effects
idle m = record { storage = m; notices = []; result = ok tt }

-- The delay of the policy's first step, a negative one as 0; 0 if there is no policy or step.
unfoldable pub first_step_delay_secs : Result EscalationPolicy → ℕ
first_step_delay_secs (err e) = 0
first_step_delay_secs (ok policy) = elim policy.steps [ [] ↦ 0 | s ∷ ss ↦ pos_part s.delay_secs ]

unfoldable pub seed_state : DateTime → Uuid → Uuid → ℕ → IncidentEscalationState
seed_state now incident_id policy_id delay = record {
  incident_id = incident_id;
  policy_id = policy_id;
  current_level = pos 0;
  current_round = pos 0;
  last_paged_at = now;
  next_check_at = now + delay * nanos;
  acked = false;
}

unfoldable pub seed_escalation_state : DateTime → Uuid → Uuid → MemoryStorage → MemoryStorage
unfolding first_step_delay_secs seed_state upsert_escalation_state get_target
seed_escalation_state now target_id incident_id m = elim (get_target target_id m) [
  | err e ↦ m
  | ok target ↦ elim target.escalation_policy_id [
    | none ↦ m
    | some policy_id ↦
        upsert_escalation_state
          (seed_state now incident_id policy_id
            (first_step_delay_secs (get_escalation_policy policy_id m)))
          m
  ]
]

-- The incident that the first bad result of the window opens.
unfoldable pub opened_incident : Surroundings → Uuid → ℕ → CheckResult → Incident
opened_incident env target_id bad first = record {
  id = env.new_id;
  target_id = target_id;
  started_at = first.timestamp;
  ended_at = none;
  status = first.status;
  duration_secs = none;
  check_count = bad;
  error_sample = first.error;
  severity = major;
  public_title = some (env.title target_id);
  public_description = first.error;
  created_at = some env.now;
  updated_at = some env.now;
  updates = [];
  regions_down = [];
  regions_up = [];
}

-- `ctx` is there: without it no channel is notified.
unfoldable pub notices_for :
    Bool → DateTime → Incident → DeliveryReason → MemoryStorage → List Notice
notices_for ctx now incident reason m =
    if ctx then dispatch_to_target_channels now incident reason m else []

-- What follows the attempt to store the new incident; a conflict is another writer's.
unfoldable pub after_create : Surroundings → Bool → Uuid → MemoryStorage × Result Incident → Effects
unfolding notices_for seed_escalation_state
after_create env ctx target_id (m, err conflict) = idle m
after_create env ctx target_id (m, err e) = record { storage = m; notices = []; result = err e }
after_create env ctx target_id (m, ok created) =
    let queued = enqueue_subscriber_deliveries env created incident_opened m in
    record {
      storage = seed_escalation_state env.now target_id created.id queued;
      notices = notices_for ctx env.now created incident_opened queued;
      result = ok tt;
    }

unfoldable pub auto_open :
    Surroundings → Bool → Uuid → ℕ → Option CheckResult → MemoryStorage → Effects
unfolding after_create opened_incident
auto_open env ctx target_id bad none m = idle m
auto_open env ctx target_id bad (some first) m =
    after_create env ctx target_id (create_incident (opened_incident env target_id bad first) m)

-- The incident as it is closed: its end is the first `Up` result of the window.
unfoldable pub closed_incident : Surroundings → Option CheckResult → Incident → Incident
closed_incident env first_good i =
    let ended_at : DateTime = elim first_good [ none ↦ env.now | some r ↦ r.timestamp ] in
    record i {
      ended_at = some ended_at;
      duration_secs = some (secs_between i.started_at ended_at);
      updated_at = some env.now;
    }

unfoldable pub after_update :
    Surroundings → Bool → Incident → MemoryStorage × Result Incident → Effects
unfolding notices_for delete_escalation_state
after_update env ctx updated (m, err e) = record { storage = m; notices = []; result = err e }
after_update env ctx updated (m, ok stored) =
    let queued = enqueue_subscriber_deliveries env updated incident_resolved m in
    record {
      storage = delete_escalation_state updated.id queued;
      notices = notices_for ctx env.now updated incident_resolved queued;
      result = ok tt;
    }

unfoldable pub auto_close :
    Surroundings → Bool → Option CheckResult → Incident → MemoryStorage → Effects
unfolding after_update closed_incident
auto_close env ctx first_good current m =
    let updated = closed_incident env first_good current in
    after_update env ctx updated (update_incident updated m)

-- Opens on a bad run with no current incident, closes on a good run with one; `current` is the incident
-- that was found.
unfoldable pub decide :
    Surroundings → Bool → Uuid → List CheckResult → Option Incident → MemoryStorage → Effects
unfolding bad_run good_run auto_open auto_close
decide env ctx target_id ordered current m =
    if leb flap_threshold (bad_run ordered) && is_none current
    then auto_open env ctx target_id (bad_run ordered) (find not_up ordered) m
    else elim current [
      | none ↦ idle m
      | some i ↦
          if leb flap_threshold (good_run ordered)
          then auto_close env ctx (find was_up ordered) i m
          else idle m
    ]

-- The results come newest first and are read oldest first.
unfoldable pub decide_and_apply_incident_state :
    Surroundings → Bool → Uuid → List CheckResult → MemoryStorage → Effects
unfolding decide
decide_and_apply_incident_state env ctx target_id results m =
    decide env ctx target_id (reverse results) (find_open_incident_for_target target_id m) m

unfoldable pub evaluate_target : Surroundings → Bool → Uuid → MemoryStorage → Effects
unfolding decide_and_apply_incident_state
evaluate_target env ctx target_id m =
    if is_target_in_active_maintenance env.now target_id m
    then idle m
    else elim (list_results target_id lookback m) [
      | [] ↦ idle m
      | r ∷ rs ↦ decide_and_apply_incident_state env ctx target_id (r ∷ rs) m
    ]
