-- ===== src/Server/Writer/Settled.antt =====
-- Two passes of `decide_and_apply_incident_state` in bin/status-server/src/incident_writer.rs over the
-- same results, as the per-probe and the background path make them.
use statuspage.Base.{
  ◌≡◌, refl, sym, arith, Bool, true, false, Option, none, some, is_none, List, [], ◌∷◌, reverse,
  Bool-cases, inl, inr, leb, find, ◌&&◌, take_while, length,
}
use mathlib.Core.Path.{subst}
use statuspage.Base.Dict.{get, insert, get-insert_self}
use statuspage.Domain.Time.{Uuid}
use statuspage.Domain.Status.{is_up}
use statuspage.Domain.Incident.{Incident}
use statuspage.Domain.Monitor.{CheckResult}
use statuspage.Storage.Memory.{MemoryStorage}
use statuspage.Storage.Incidents.{find_open_incident_for_target}
use statuspage.Storage.Incidents.Single.{
  IsSingle, NoneOpen, NoneOpen-none_found, insert_closed-NoneOpen, found-stored, stored_open-found,
}
use statuspage.Server.Dispatch.{Surroundings}
use statuspage.Server.Writer.{
  Effects, idle, opened_incident, auto_open, closed_incident, auto_close, decide, flap_threshold,
  bad_run, good_run, not_up, was_up, decide_and_apply_incident_state,
}
use statuspage.Server.Writer.Effect.{auto_open-incidents, auto_close-incidents, auto_close-IsSingle}

-- A trailing run of bad results leaves no trailing good one.
runs_apart :
    (rs : List CheckResult)
    → leb 1 (length (take_while not_up rs)) ≡ true
    → length (take_while was_up rs) ≡ 0
unfolding take_while
runs_apart [] h = refl
runs_apart (r ∷ rs) h = elim (Bool-cases (is_up r.status)) [ inl y ↦ ground arith | inr n ↦ rw n ]

pub no_good_run :
    (ordered : List CheckResult)
    → leb flap_threshold (bad_run ordered) ≡ true
    → leb flap_threshold (good_run ordered) ≡ false
unfolding bad_run good_run
no_good_run ordered h =
    let none_good : length (take_while was_up (reverse ordered)) ≡ 0 =
      runs_apart (reverse ordered) (ground arith) in
    ground arith

module _ (env : Surroundings) (ctx : Bool) (target_id : Uuid) (ordered : List CheckResult) where
  -- With an open incident and no good run, or with none and no bad run, nothing is done.
  pub decide-idle_open :
      (o : Option Incident) (m : MemoryStorage)
      → is_none o ≡ false
      → leb flap_threshold (good_run ordered) ≡ false
      → decide env ctx target_id ordered o m ≡ idle m
  unfolding decide
  decide-idle_open none m some_open quiet = cc
  decide-idle_open (some i) m some_open quiet =
      let bad = leb flap_threshold (bad_run ordered) in
      let off : (bad && false) ≡ false = ground arith in rw (off, quiet)

  pub decide-idle_closed :
      (m : MemoryStorage)
      → leb flap_threshold (bad_run ordered) ≡ false
      → decide env ctx target_id ordered none m ≡ idle m
  unfolding decide
  decide-idle_closed m quiet = rw quiet

  pub decide_opens :
      (m : MemoryStorage)
      → leb flap_threshold (bad_run ordered) ≡ true
      → decide env ctx target_id ordered none m
        ≡ auto_open env ctx target_id (bad_run ordered) (find not_up ordered) m
  unfolding decide
  decide_opens m bad = rw bad

  decide_no_start :
      (m : MemoryStorage)
      → leb flap_threshold (bad_run ordered) ≡ true
      → find not_up ordered ≡ none
      → decide env ctx target_id ordered none m ≡ idle m
  unfolding auto_open
  decide_no_start m bad s = rw (decide_opens m bad, s)

  pub decide_closes :
      (i : Incident) (m : MemoryStorage)
      → leb flap_threshold (good_run ordered) ≡ true
      → decide env ctx target_id ordered (some i) m ≡ auto_close env ctx (find was_up ordered) i m
  unfolding decide
  decide_closes i m good =
      let bad = leb flap_threshold (bad_run ordered) in
      let off : (bad && false) ≡ false = ground arith in rw (off, good)

module _ (env later : Surroundings) (ctx ctx_later : Bool) (target_id : Uuid)
    (ordered : List CheckResult) (m : MemoryStorage) where
  -- The second pass, over the storage that the first one left.
  abbrev Settled : Effects → Type 0
  Settled e =
      decide later ctx_later target_id ordered (find_open_incident_for_target target_id e.storage)
        e.storage
      ≡ idle e.storage

  pub opened-found :
      (first : CheckResult)
      → get env.new_id m.incidents ≡ none
      → is_none (
          find_open_incident_for_target target_id
            (auto_open env ctx target_id (bad_run ordered) (some first) m).storage)
        ≡ false
  unfolding opened_incident
  opened-found first fresh =
      let done = (auto_open env ctx target_id (bad_run ordered) (some first) m).storage in
      let i = opened_incident env target_id (bad_run ordered) first in
      let at : get env.new_id done.incidents ≡ some i =
        rw (
          auto_open-incidents env ctx target_id (bad_run ordered) first m,
          fresh,
          get-insert_self,
        ) in
      stored_open-found done env.new_id i at refl

  opened-Settled :
      (first : CheckResult)
      → get env.new_id m.incidents ≡ none
      → leb flap_threshold (bad_run ordered) ≡ true
      → Settled (auto_open env ctx target_id (bad_run ordered) (some first) m)
  opened-Settled first fresh bad =
      let done = (auto_open env ctx target_id (bad_run ordered) (some first) m).storage in
      decide-idle_open later ctx_later target_id ordered
        (find_open_incident_for_target target_id done) done (opened-found first fresh)
        (no_good_run ordered bad)

  pub closed-gone :
      (i : Incident)
      → IsSingle m.incidents
      → find_open_incident_for_target target_id m ≡ some i
      → find_open_incident_for_target target_id
          (auto_close env ctx (find was_up ordered) i m).storage
        ≡ none
  unfolding closed_incident
  closed-gone i h e =
      let done = (auto_close env ctx (find was_up ordered) i m).storage in
      let there = found-stored target_id m i h e in
      let closed = closed_incident env (find was_up ordered) i in
      let incidents : done.incidents ≡ insert i.id closed m.incidents =
        rw (auto_close-incidents env ctx (find was_up ordered) i m, there.0) in
      let clear : NoneOpen i.target_id done.incidents =
        subst (NoneOpen i.target_id) (sym incidents)
          (insert_closed-NoneOpen closed i m.incidents h there.0 there.2 refl) in
      NoneOpen-none_found target_id done (auto_close-IsSingle env ctx (find was_up ordered) i m h)
        (subst (λ t. NoneOpen t done.incidents) there.1 clear)

  closed-Settled :
      (i : Incident)
      → IsSingle m.incidents
      → find_open_incident_for_target target_id m ≡ some i
      → leb flap_threshold (bad_run ordered) ≡ false
      → Settled (auto_close env ctx (find was_up ordered) i m)
  closed-Settled i h e calm =
      let done = (auto_close env ctx (find was_up ordered) i m).storage in
      rw (closed-gone i h e, decide-idle_closed later ctx_later target_id ordered done calm)

  decide-Settled :
      (o : Option Incident)
      → IsSingle m.incidents
      → get env.new_id m.incidents ≡ none
      → find_open_incident_for_target target_id m ≡ o
      → Settled (decide env ctx target_id ordered o m)
  decide-Settled none h fresh e = elim (Bool-cases (leb flap_threshold (bad_run ordered))) [
    | inl y ↦ opens (find not_up ordered) refl y
    | inr n ↦
        subst Settled (sym (decide-idle_closed env ctx target_id ordered m n))
          (rw (e, decide-idle_closed later ctx_later target_id ordered m n))
  ]
    where
      opens :
          (first : Option CheckResult)
          → find not_up ordered ≡ first
          → leb flap_threshold (bad_run ordered) ≡ true
          → Settled (decide env ctx target_id ordered none m)
      opens none s y =
          subst Settled (sym (decide_no_start env ctx target_id ordered m y s))
            (rw (e, decide_no_start later ctx_later target_id ordered m y s))
      opens (some first) s y =
          let opens_now : decide env ctx target_id ordered none m
              ≡ auto_open env ctx target_id (bad_run ordered) (some first) m =
            rw (decide_opens env ctx target_id ordered m y, s) in
          subst Settled (sym opens_now) (opened-Settled first fresh y)
  decide-Settled (some i) h fresh e = elim (Bool-cases (leb flap_threshold (good_run ordered))) [
    | inl y ↦ elim (Bool-cases (leb flap_threshold (bad_run ordered))) [
      | inl b ↦ let n = no_good_run ordered b in cc
      | inr n ↦
          subst Settled (sym (decide_closes env ctx target_id ordered i m y))
            (closed-Settled i h e n)
    ]
    | inr n ↦
        subst Settled (sym (decide-idle_open env ctx target_id ordered (some i) m refl n))
          (rw (e, decide-idle_open later ctx_later target_id ordered (some i) m refl n))
  ]

-- If every target has at most one open incident and the id drawn is new, a second pass over the same
-- results finds nothing to do: it stores nothing, queues nothing, notifies nobody and succeeds,
-- whatever its clock, its ids and its context are.
pub decide_and_apply-settled :
    (env later : Surroundings) (ctx ctx_later : Bool) (target_id : Uuid)
    (results : List CheckResult) (m : MemoryStorage)
    → IsSingle m.incidents
    → get env.new_id m.incidents ≡ none
    → decide_and_apply_incident_state later ctx_later target_id results
        (decide_and_apply_incident_state env ctx target_id results m).storage
      ≡ idle (decide_and_apply_incident_state env ctx target_id results m).storage
unfolding decide_and_apply_incident_state
decide_and_apply-settled env later ctx ctx_later target_id results m h fresh =
    decide-Settled env later ctx ctx_later target_id (reverse results) m
      (find_open_incident_for_target target_id m) h fresh refl
