-- ===== src/Domain/Incident/Coalesce/Counts.antt =====
-- What the incidents of `coalesce_incidents` in crates/core/src/domain/incident.rs say together, and
-- how the end of a closed run reads.
use statuspage.Base.{
  Option, is_some, ℕ, suc, ◌+◌, ◌≡◌, refl, ap, ◌∙◌, ◌↔◌, none, some, List, [], ◌∷◌, ◌++◌, length,
  All, arith, Bool-cases, inl, inr, if◌then◌else◌,
}
use mathlib.Core.List.{append_assoc, append-nil}
use statuspage.Domain.Time.{Uuid}
use statuspage.Domain.Status.{is_bad}
use statuspage.Domain.Incident.{Incident, Observation, new_incident}
use statuspage.Domain.Incident.Coalesce.{coalesce_from, coalesce_incidents, extend_incident}
use statuspage.Domain.Incident.Coalesce.Laws.{
  IsBad, IsGood, Run, Segments, nothing, skip, ongoing, ended, summary, summaries, since, last_seen,
  held, held-extend, coalesce_incidents-Segments,
}

abbrev pub bad_count : List Observation → ℕ
bad_count [] = 0
bad_count (o ∷ os) = let rest = bad_count os in if is_bad o.1 then suc rest else rest

abbrev pub check_total : List Incident → ℕ
check_total [] = 0
check_total (inc ∷ incs) = inc.check_count + check_total incs

bad_count-append : (os ps : List Observation) → bad_count (os ++ ps) ≡ bad_count os + bad_count ps
bad_count-append [] ps = omega arith
bad_count-append (o ∷ os) ps = ground (arith, bad_count-append os ps)

bad_count-All : (os : List Observation) → All IsBad os → bad_count os ≡ length os
bad_count-All [] h = refl
bad_count-All (o ∷ os) h = ground (arith, bad_count-All os h.1)

summaries-total :
    (fresh : ℕ → Uuid) (target_id : Uuid) (n : ℕ) {os : List Observation} {rs : List Run}
    → Segments os rs
    → check_total (summaries fresh target_id n rs) ≡ bad_count os
unfolding summaries
summaries-total fresh target_id n nothing = refl
summaries-total fresh target_id n (skip o good seg) =
    ground (arith, summaries-total fresh target_id n seg)
summaries-total fresh target_id n (ongoing o more bad bads) =
    ground (arith, bad_count-All more bads)
summaries-total fresh target_id n (ended o more g {os = os} bad bads good seg) = ground (
  arith,
  bad_count-All more bads,
  bad_count-append more (g ∷ os),
  summaries-total fresh target_id (suc n) seg,
)

-- The check counts of the incidents add up to the number of `down` and `error` observations.
pub coalesce_incidents-check_total :
    (fresh : ℕ → Uuid) (target_id : Uuid) (observations : List Observation)
    → check_total (coalesce_incidents fresh target_id observations) ≡ bad_count observations
coalesce_incidents-check_total fresh target_id observations =
    let (rs, seg, e) = coalesce_incidents-Segments fresh target_id observations in
    ap check_total e ∙ summaries-total fresh target_id 0 seg

-- The last of the observations, if there is one, is good.
abbrev pub EndsGood : List Observation → Type 0
EndsGood [] = Unit
EndsGood (o ∷ []) = IsGood o
EndsGood (o ∷ p ∷ os) = EndsGood (p ∷ os)

module _ (fresh : ℕ → Uuid) (target_id : Uuid) where
  closes_run :
      (n : ℕ) (o g : Observation) (os before more : List Observation)
      → IsGood g
      → All IsBad more
      → coalesce_from fresh target_id
          (suc n)
          (some (held (fresh n) target_id o before))
          (more ++ g ∷ os)
        ≡ held (fresh n) target_id o (before ++ more)
          ∷ coalesce_from fresh target_id (suc n) none os
  unfolding coalesce_from
  closes_run n o g os before [] good h = rw (good, coalesce_from, append-nil before)
  closes_run n o g os before (p ∷ more) good h =
      rw (h.0, coalesce_from)
        (rw (held-extend (fresh n) target_id o before p) (
          closes_run n o g os (before ++ p ∷ []) more good h.1
          ∙ ap (λ l. held (fresh n) target_id o l ∷ coalesce_from fresh target_id (suc n) none os)
              (append_assoc before (p ∷ []) more)))

  -- What the loop has pushed after these observations, and the rest of its work with no run open.
  Splits : ℕ → Option Incident → List Observation → List Observation → Type 0
  Splits n current os rest =
      (done : List Incident) × (drawn : ℕ) × (coalesce_from fresh target_id n current (os ++ rest)
        ≡ done ++ coalesce_from fresh target_id drawn none rest)

  Splits-cons :
      (o : Observation) (os rest : List Observation) (n : ℕ) (current : Option Incident)
      → EndsGood (o ∷ os)
      → Splits n current (o ∷ os) rest
  unfolding Splits coalesce_from
  Splits-cons o [] rest n none good = ([], n, rw (good, coalesce_from))
  Splits-cons o [] rest n (some inc) good = (inc ∷ [], n, rw (good, coalesce_from))
  Splits-cons o (p ∷ os) rest n none ends = elim (Bool-cases (is_bad o.1)) [
    | inl y ↦
        let (done, drawn, e) =
          Splits-cons p os rest (suc n) (some (new_incident (fresh n) target_id o.0 o.1 o.2))
            ends in
        (done, drawn, rw (y, coalesce_from) e)
    | inr g ↦
        let (done, drawn, e) = Splits-cons p os rest n none ends in
        (done, drawn, rw (g, coalesce_from) e)
  ]
  Splits-cons o (p ∷ os) rest n (some inc) ends = elim (Bool-cases (is_bad o.1)) [
    | inl y ↦
        let (done, drawn, e) =
          Splits-cons p os rest n (some (extend_incident inc o.0 o.1 o.2)) ends in
        (done, drawn, rw (y, coalesce_from) e)
    | inr g ↦
        let (done, drawn, e) = Splits-cons p os rest n none ends in
        (inc ∷ done, drawn, rw (g, coalesce_from) (ap (λ l. inc ∷ l) e))
  ]

  Splits-EndsGood : (os rest : List Observation) (n : ℕ) → EndsGood os → Splits n none os rest
  unfolding Splits
  Splits-EndsGood [] rest n ends = ([], n, refl)
  Splits-EndsGood (o ∷ os) rest n ends = Splits-cons o os rest n none ends

last_seen-none : (more : List Observation) → last_seen none more ≡ none → more ≡ []
unfolding last_seen
last_seen-none [] h = refl
last_seen-none (p ∷ more) h = absurd (some_seen p.0 more h)
  where
    some_seen : (t : ℕ) (more : List Observation) → ¬ (last_seen (some t) more ≡ none)
    some_seen t [] h = cc
    some_seen t (q ∷ more) h = some_seen q.0 more h

since-is_some : (start : ℕ) (t : Option ℕ) → is_some (since start t) ≡ is_some t
unfolding since
since-is_some start none = refl
since-is_some start (some t) = refl

-- Of a run of bad observations that a good one ended, and that stands at the start of the stream or
-- after a good one, the incident, which starts with the run, looks ongoing exactly if the run has a
-- single observation: a bad check between two good ones leaves an incident with no end and no duration.
pub coalesce_incidents-lone_check :
    (fresh : ℕ → Uuid) (target_id : Uuid) (before : List Observation) (o : Observation)
    (more : List Observation) (g : Observation) (os : List Observation)
    → EndsGood before
    → IsBad o
    → All IsBad more
    → IsGood g
    → (done : List Incident) × (inc : Incident) × (rest : List Incident) × (coalesce_incidents fresh
          target_id
          (before ++ (o ∷ more ++ g ∷ os))
        ≡ done ++ inc ∷ rest)
      × (inc.started_at ≡ o.0)
      × ((inc.ended_at ≡ none) ↔ (more ≡ []))
      × (is_some inc.duration_secs ≡ is_some inc.ended_at)
unfolding coalesce_incidents coalesce_from summary Splits
coalesce_incidents-lone_check fresh target_id before o more g os ends bad bads good =
    let (done, n, e) = Splits-EndsGood fresh target_id before (o ∷ more ++ g ∷ os) 0 ends in
    let run : coalesce_from fresh target_id n none (o ∷ more ++ g ∷ os)
        ≡ held (fresh n) target_id o more ∷ coalesce_from fresh target_id (suc n) none os =
      rw (bad, coalesce_from) (closes_run fresh target_id n o g os [] more good bads) in
    (
      done,
      held (fresh n) target_id o more,
      coalesce_from fresh target_id (suc n) none os,
      e ∙ ap (λ l. done ++ l) run,
      refl,
      (last_seen-none more, λ e. rw e),
      since-is_some o.0 (last_seen none more),
    )
