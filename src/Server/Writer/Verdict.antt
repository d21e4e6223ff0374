-- ===== src/Server/Writer/Verdict.antt =====
-- Whether a target has an open incident after `decide_and_apply_incident_state` of
-- bin/status-server/src/incident_writer.rs.
use statuspage.Base.{
  ◌≡◌, refl, sym, ap, ◌∙◌, arith, Bool, true, false, Option, none, some, is_some, is_none, List, [],
  ◌∷◌, reverse, Bool-cases, Option-cases, inl, inr, if◌then◌else◌, leb, find, take_while, length,
  All,
}
use mathlib.Core.List.{reverse_aux, reverse-reverse}
use statuspage.Base.Dict.{get}
use statuspage.Domain.Time.{Uuid}
use statuspage.Domain.Status.{is_up}
use statuspage.Domain.Incident.{Incident}
use statuspage.Domain.Monitor.{CheckResult}
use statuspage.Storage.Memory.{MemoryStorage}
use statuspage.Storage.Incidents.{find_open_incident_for_target}
use statuspage.Storage.Incidents.Single.{IsSingle}
use statuspage.Server.Dispatch.{Surroundings}
use statuspage.Server.Writer.{
  auto_open, decide, flap_threshold, bad_run, good_run, not_up, was_up,
  decide_and_apply_incident_state,
}
use statuspage.Server.Writer.Settled.{
  decide-idle_open, decide-idle_closed, decide_opens, decide_closes, no_good_run, opened-found,
  closed-gone,
}

-- The target is down after a trailing bad run, up after a trailing good one, and else as it was.
abbrev pub verdict : List CheckResult → Bool → Bool
verdict ordered before =
    if leb flap_threshold (bad_run ordered)
    then true
    else if leb flap_threshold (good_run ordered)
    then false
    else before

find-none-All : (rs : List CheckResult) → find not_up rs ≡ none → All (λ r. not_up r ≡ false) rs
unfolding find
find-none-All [] e = tt
find-none-All (r ∷ rs) e = elim (Bool-cases (not_up r)) [
  | inl y ↦ let hit : find not_up (r ∷ rs) ≡ some r = rw (find, y) in cc
  | inr n ↦ (
    n,
    find-none-All rs
        (let rest : find not_up (r ∷ rs) ≡ find not_up rs = rw (find, n) in sym rest ∙ e),
  )
]

All-reverse_aux :
    (rs acc : List CheckResult)
    → All (λ r. not_up r ≡ false) rs
    → All (λ r. not_up r ≡ false) acc
    → All (λ r. not_up r ≡ false) (reverse_aux rs acc)
All-reverse_aux [] acc h k = k
All-reverse_aux (r ∷ rs) acc h k = All-reverse_aux rs (r ∷ acc) h.1 (h.0, k)

no_bad_run :
    (rs : List CheckResult) → All (λ r. not_up r ≡ false) rs → length (take_while not_up rs) ≡ 0
unfolding take_while
no_bad_run [] h = refl
no_bad_run (r ∷ rs) h = rw h.0

-- A trailing bad run has a first bad result.
bad_run-found :
    (ordered : List CheckResult)
    → leb flap_threshold (bad_run ordered) ≡ true
    → (first : CheckResult) × (find not_up ordered ≡ some first)
unfolding bad_run
bad_run-found ordered h = elim (Option-cases (find not_up ordered)) [
  | inl e ↦
      let short : length (take_while not_up (reverse ordered)) ≡ 0 =
        no_bad_run (reverse ordered) (All-reverse_aux ordered [] (find-none-All ordered e) tt) in
      absurd (ground arith)
  | inr found ↦ found
]

is_none-is_some : (o : Option Incident) → is_none o ≡ false → is_some o ≡ true
is_none-is_some none h = cc
is_none-is_some (some i) h = refl

module _ (env : Surroundings) (ctx : Bool) (target_id : Uuid) (ordered : List CheckResult)
    (m : MemoryStorage) where
  decide-verdict :
      (o : Option Incident)
      → IsSingle m.incidents
      → get env.new_id m.incidents ≡ none
      → find_open_incident_for_target target_id m ≡ o
      → is_some
          (find_open_incident_for_target target_id (decide env ctx target_id ordered o m).storage)
        ≡ verdict ordered (is_some o)
  decide-verdict none h fresh e = elim (Bool-cases (leb flap_threshold (bad_run ordered))) [
    | inl y ↦
        let first = bad_run-found ordered y in
        let found = opened-found env env ctx ctx target_id ordered m first.0 fresh in
        rw (
          decide_opens env ctx target_id ordered m y,
          first.1,
          y,
          is_none-is_some
              (find_open_incident_for_target target_id
                (auto_open env ctx target_id (bad_run ordered) (some first.0) m).storage)
              found,
        )
    | inr n ↦ rw (decide-idle_closed env ctx target_id ordered m n, n, e) (ground arith)
  ]
  decide-verdict (some i) h fresh e = elim (Bool-cases (leb flap_threshold (good_run ordered))) [
    | inl y ↦ elim (Bool-cases (leb flap_threshold (bad_run ordered))) [
      | inl b ↦ let n = no_good_run ordered b in cc
      | inr n ↦ rw (
        decide_closes env ctx target_id ordered i m y,
        closed-gone env env ctx ctx target_id ordered m i h e,
        n,
        y,
      )
    ]
    | inr n ↦ rw (decide-idle_open env ctx target_id ordered (some i) m refl n, e, n) (ground arith)
  ]

-- The same by the newest two results, which come first.
abbrev pub newest_verdict : List CheckResult → Bool → Bool
newest_verdict (a ∷ b ∷ older) before =
    if is_up a.status
    then (if is_up b.status then false else before)
    else (if is_up b.status then before else true)
newest_verdict _ before = before

runs-newest :
    (results : List CheckResult) (before : Bool)
    → (if leb flap_threshold (length (take_while not_up results))
        then true
        else if leb flap_threshold (length (take_while was_up results))
        then false
        else before)
      ≡ newest_verdict results before
unfolding take_while
runs-newest [] before = refl
runs-newest (a ∷ []) before = elim (Bool-cases (is_up a.status)) [ inl y ↦ rw y | inr n ↦ rw n ]
runs-newest (a ∷ b ∷ older) before = elim (Bool-cases (is_up a.status)) [
  | inl y ↦ elim (Bool-cases (is_up b.status)) [
    | inl z ↦ rw (y, z) (ground arith)
    | inr z ↦ rw (y, z)
  ]
  | inr n ↦ elim (Bool-cases (is_up b.status)) [
    | inl z ↦ rw (n, z)
    | inr z ↦ rw (n, z) (ground arith)
  ]
]

verdict-newest :
    (results : List CheckResult) (before : Bool)
    → verdict (reverse results) before ≡ newest_verdict results before
unfolding bad_run good_run
verdict-newest results before =
    ap
      (λ l.
        if leb flap_threshold (length (take_while not_up l))
        then true
        else if leb flap_threshold (length (take_while was_up l))
        then false
        else before)
      (reverse-reverse results)
    ∙ runs-newest results before

-- After a pass the target has an open incident if the newest two results are bad, has none if the
-- newest two are `Up`, and else has one exactly if it had one before; every target must have had at
-- most one open incident, and the id drawn must be new.
pub decide_and_apply-verdict :
    (env : Surroundings) (ctx : Bool) (target_id : Uuid) (results : List CheckResult)
    (m : MemoryStorage)
    → IsSingle m.incidents
    → get env.new_id m.incidents ≡ none
    → is_some (
        find_open_incident_for_target target_id
          (decide_and_apply_incident_state env ctx target_id results m).storage)
      ≡ newest_verdict results (is_some (find_open_incident_for_target target_id m))
unfolding decide_and_apply_incident_state
decide_and_apply-verdict env ctx target_id results m h fresh =
    decide-verdict env ctx target_id (reverse results) m (find_open_incident_for_target target_id m)
      h fresh refl
    ∙ verdict-newest results (is_some (find_open_incident_for_target target_id m))
