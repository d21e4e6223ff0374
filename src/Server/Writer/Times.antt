-- ===== src/Server/Writer/Times.antt =====
-- Which times `decide_and_apply_incident_state` of bin/status-server/src/incident_writer.rs gives an
-- incident.
use statuspage.Base.{
  ◌≡◌, refl, Bool, true, false, Option, none, some, List, [], ◌∷◌, ◌++◌, reverse, All, leb, find,
  length, take_while, ap,
}
use mathlib.Core.List.{reverse_aux, reverse-reverse}
use statuspage.Base.Dict.{get, get-insert_self}
use statuspage.Domain.Time.{Uuid, secs_between}
use statuspage.Domain.Status.{is_up, major}
use statuspage.Domain.Incident.{Incident}
use statuspage.Domain.Monitor.{CheckResult}
use statuspage.Storage.Memory.{MemoryStorage}
use statuspage.Storage.Incidents.{find_open_incident_for_target}
use statuspage.Storage.Incidents.Single.{IsSingle, found-stored}
use statuspage.Server.Dispatch.{Surroundings}
use statuspage.Server.Writer.{
  opened_incident, auto_open, closed_incident, decide, flap_threshold, bad_run, good_run, not_up,
  was_up, decide_and_apply_incident_state,
}
use statuspage.Server.Writer.Effect.{auto_open-incidents, auto_close-incidents}
use statuspage.Server.Writer.Settled.{decide_closes, decide_opens}

-- A search of the reversed list skips the older elements that fail.
find-reverse_aux :
    (p : CheckResult → Bool) (older acc : List CheckResult)
    → All (λ r. p r ≡ false) older
    → find p (reverse_aux older acc) ≡ find p acc
unfolding find
find-reverse_aux p [] acc h = refl
find-reverse_aux p (r ∷ rs) acc h = rw (find-reverse_aux p rs (r ∷ acc) h.1, h.0)

find_oldest :
    (p : CheckResult → Bool) (newer older acc : List CheckResult) (r : CheckResult)
    → p r ≡ true
    → All (λ x. p x ≡ false) older
    → find p (reverse_aux (newer ++ r ∷ older) acc) ≡ some r
unfolding find
find_oldest p [] older acc r y h = rw (find-reverse_aux p older (r ∷ acc) h, y)
find_oldest p (x ∷ newer) older acc r y h = find_oldest p newer older (x ∷ acc) r y h

bad_run_newest :
    (results : List CheckResult) → bad_run (reverse results) ≡ length (take_while not_up results)
unfolding bad_run
bad_run_newest results = ap (λ rs. length (take_while not_up rs)) (reverse-reverse results)

module _ (env : Surroundings) (ctx : Bool) (target_id : Uuid) (newer older : List CheckResult)
    (r : CheckResult) (m : MemoryStorage) where
  pass_with :
      (o : Option Incident)
      → find_open_incident_for_target target_id m ≡ o
      → decide_and_apply_incident_state env ctx target_id (newer ++ r ∷ older) m
        ≡ decide env ctx target_id (reverse (newer ++ r ∷ older)) o m
  unfolding decide_and_apply_incident_state
  pass_with o e = rw e

  -- When a pass closes an incident, the end it stores is the time of the oldest `Up` result of the
  -- window `newer ++ r ∷ older` (newest first), and the duration is counted from the incident's start
  -- to that time; no other field but the update time changes. The result need not belong to the run
  -- that closes the incident, nor be later than its start.
  pub close-oldest_up :
      (i : Incident)
      → IsSingle m.incidents
      → find_open_incident_for_target target_id m ≡ some i
      → leb flap_threshold (good_run (reverse (newer ++ r ∷ older))) ≡ true
      → is_up r.status ≡ true
      → All (λ x. is_up x.status ≡ false) older
      → get i.id
          (decide_and_apply_incident_state env ctx target_id
            (newer ++ r ∷ older)
            m).storage.incidents
        ≡ some (record i {
          ended_at = some r.timestamp;
          duration_secs = some (secs_between i.started_at r.timestamp);
          updated_at = some env.now;
        })
  unfolding closed_incident
  close-oldest_up i h e good up rest =
      let first : find was_up (reverse (newer ++ r ∷ older)) ≡ some r =
        find_oldest was_up newer older [] r up rest in
      let there = found-stored target_id m i h e in
      rw (
        pass_with (some i) e,
        decide_closes env ctx target_id (reverse (newer ++ r ∷ older)) i m good,
        auto_close-incidents env ctx (find was_up (reverse (newer ++ r ∷ older))) i m,
        there.0,
        get-insert_self,
        first,
      )

  -- When a pass opens an incident, its start, status and error are those of the oldest result of the
  -- window that is not `Up`, its check count is the number of newest results before the first `Up` one,
  -- and it is of major severity, with no end, no update and no region; the id drawn must be new. The result need not belong to that run.
  pub open-oldest_bad :
      get env.new_id m.incidents ≡ none
      → find_open_incident_for_target target_id m ≡ none
      → leb flap_threshold (bad_run (reverse (newer ++ r ∷ older))) ≡ true
      → not_up r ≡ true
      → All (λ x. not_up x ≡ false) older
      → get env.new_id
          (decide_and_apply_incident_state env ctx target_id
            (newer ++ r ∷ older)
            m).storage.incidents
        ≡ some (record {
          id = env.new_id;
          target_id = target_id;
          started_at = r.timestamp;
          ended_at = none;
          status = r.status;
          duration_secs = none;
          check_count = length (take_while not_up (newer ++ r ∷ older));
          error_sample = r.error;
          severity = major;
          public_title = some (env.title target_id);
          public_description = r.error;
          created_at = some env.now;
          updated_at = some env.now;
          updates = [];
          regions_down = [];
          regions_up = [];
        })
  unfolding opened_incident
  open-oldest_bad fresh e bad not_ok rest =
      let first : find not_up (reverse (newer ++ r ∷ older)) ≡ some r =
        find_oldest not_up newer older [] r not_ok rest in
      let opens : decide env ctx target_id (reverse (newer ++ r ∷ older)) none m
          ≡ auto_open env ctx target_id (bad_run (reverse (newer ++ r ∷ older))) (some r) m =
        rw (decide_opens env ctx target_id (reverse (newer ++ r ∷ older)) m bad, first) in
      rw (
        pass_with none e,
        opens,
        auto_open-incidents env ctx target_id (bad_run (reverse (newer ++ r ∷ older))) r m,
        fresh,
        get-insert_self,
        bad_run_newest (newer ++ r ∷ older),
      )
