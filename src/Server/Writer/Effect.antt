-- ===== src/Server/Writer/Effect.antt =====
-- What `decide_and_apply_incident_state` of bin/status-server/src/incident_writer.rs does to the
-- stored incidents.
use statuspage.Base.{
  ℕ, ◌≡◌, refl, arith, Bool, false, Option, none, some, is_some, List, Bool-cases, inl, inr,
  if◌then◌else◌, leb, find, reverse, ◌&&◌,
}
use statuspage.Base.Dict.{get, insert}
use statuspage.Domain.Time.{Uuid, DateTime}
use statuspage.Domain.Incident.{Incident}
use statuspage.Domain.Monitor.{CheckResult}
use statuspage.Storage.Memory.{MemoryStorage}
use statuspage.Storage.Escalation.{upsert_escalation_state, delete_escalation_state}
use statuspage.Storage.Incidents.{create_incident, update_incident, find_open_incident_for_target}
use statuspage.Storage.Incidents.Single.{
  IsSingle, insert_open-IsSingle, insert_closed-IsSingle, none_found-NoneOpen, NoneOpen,
}
use statuspage.Server.Dispatch.{Surroundings}
use statuspage.Server.Dispatch.Frame.{enqueue-incidents}
use statuspage.Server.Writer.{
  seed_escalation_state, opened_incident, auto_open, after_create, closed_incident, after_update,
  auto_close, decide, flap_threshold, bad_run, good_run, not_up, was_up,
  decide_and_apply_incident_state,
}

seed_escalation_state-incidents :
    (now : DateTime) (target_id id : Uuid) (m : MemoryStorage)
    → (seed_escalation_state now target_id id m).incidents ≡ m.incidents
unfolding seed_escalation_state upsert_escalation_state
seed_escalation_state-incidents now target_id id m = ground arith

module _ (env : Surroundings) (ctx : Bool) where
  pub auto_open-incidents :
      (target_id : Uuid) (bad : ℕ) (first : CheckResult) (m : MemoryStorage)
      → (auto_open env ctx target_id bad (some first) m).storage.incidents ≡ (
          if is_some (get env.new_id m.incidents)
          then m.incidents
          else insert env.new_id (opened_incident env target_id bad first) m.incidents)
  unfolding auto_open create_incident after_create opened_incident
  auto_open-incidents target_id bad first m =
      elim (Bool-cases (is_some (get env.new_id m.incidents))) [
        | inl y ↦ rw y
        | inr n ↦ rw (n, seed_escalation_state-incidents, enqueue-incidents)
      ]

  pub auto_close-incidents :
      (first_good : Option CheckResult) (i : Incident) (m : MemoryStorage)
      → (auto_close env ctx first_good i m).storage.incidents ≡ (
          if is_some (get i.id m.incidents)
          then insert i.id (closed_incident env first_good i) m.incidents
          else m.incidents)
  unfolding auto_close update_incident after_update closed_incident delete_escalation_state
  auto_close-incidents first_good i m = elim (Bool-cases (is_some (get i.id m.incidents))) [
    | inl y ↦ rw (y, enqueue-incidents)
    | inr n ↦ rw n
  ]

  auto_open-IsSingle :
      (target_id : Uuid) (bad : ℕ) (first : Option CheckResult) (m : MemoryStorage)
      → IsSingle m.incidents
      → NoneOpen target_id m.incidents
      → IsSingle (auto_open env ctx target_id bad first m).storage.incidents
  unfolding opened_incident auto_open
  auto_open-IsSingle target_id bad none m h clear = h
  auto_open-IsSingle target_id bad (some first) m h clear =
      elim (Bool-cases (is_some (get env.new_id m.incidents))) [
        | inl y ↦ rw (auto_open-incidents target_id bad first m, y) h
        | inr n ↦
            rw (auto_open-incidents target_id bad first m, n)
              (insert_open-IsSingle (opened_incident env target_id bad first) m.incidents h clear)
      ]

  pub auto_close-IsSingle :
      (first_good : Option CheckResult) (i : Incident) (m : MemoryStorage)
      → IsSingle m.incidents
      → IsSingle (auto_close env ctx first_good i m).storage.incidents
  unfolding closed_incident
  auto_close-IsSingle first_good i m h = elim (Bool-cases (is_some (get i.id m.incidents))) [
    | inl y ↦
        rw (auto_close-incidents first_good i m, y)
          (insert_closed-IsSingle (closed_incident env first_good i) m.incidents h refl)
    | inr n ↦ rw (auto_close-incidents first_good i m, n) h
  ]

  decide-IsSingle :
      (target_id : Uuid) (ordered : List CheckResult) (m : MemoryStorage) (o : Option Incident)
      → find_open_incident_for_target target_id m ≡ o
      → IsSingle m.incidents
      → IsSingle (decide env ctx target_id ordered o m).storage.incidents
  unfolding decide
  decide-IsSingle target_id ordered m none e h =
      elim (Bool-cases (leb flap_threshold (bad_run ordered))) [
        | inl y ↦ rw y (
            auto_open-IsSingle target_id (bad_run ordered) (find not_up ordered) m h
              (none_found-NoneOpen target_id m e))
        | inr n ↦ rw n h
      ]
  decide-IsSingle target_id ordered m (some i) e h =
      let bad = leb flap_threshold (bad_run ordered) in
      let off : (bad && false) ≡ false = ground arith in
      elim (Bool-cases (leb flap_threshold (good_run ordered))) [
        | inl y ↦ rw (off, y) (auto_close-IsSingle (find was_up ordered) i m h)
        | inr n ↦ rw (off, n) h
      ]

  -- Whatever the results say, a pass of the incident writer leaves every target at most one open
  -- incident and every incident under its id, if that was so before.
  pub decide_and_apply-IsSingle :
      (target_id : Uuid) (results : List CheckResult) (m : MemoryStorage)
      → IsSingle m.incidents
      → IsSingle (decide_and_apply_incident_state env ctx target_id results m).storage.incidents
  unfolding decide_and_apply_incident_state
  decide_and_apply-IsSingle target_id results m h =
      decide-IsSingle target_id (reverse results) m (find_open_incident_for_target target_id m) refl
        h
