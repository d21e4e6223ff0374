-- ===== src/Domain/Incident/Coalesce/Laws.antt =====
-- The runs of bad observations, and how `coalesce_incidents` of crates/core/src/domain/incident.rs
-- sums them up.
use statuspage.Base.{
  ℕ, suc, ◌+◌, ◌≡◌, refl, ap, Bool, true, false, Bool-cases, Option, none, some, String, List, [],
  ◌∷◌, ◌++◌, length, All, arith, inl, inr, All-append,
}
use mathlib.Core.List.{append_assoc, append-nil}
use statuspage.Domain.Time.{Uuid, DateTime, secs_between}
use statuspage.Domain.Status.{CheckStatus, is_bad}
use statuspage.Domain.Incident.{Incident, Observation, new_incident}
use statuspage.Domain.Incident.Coalesce.{
  or_else, extend_incident, finish, coalesce_from, coalesce_incidents,
}

abbrev pub IsBad : Observation → Type 0
IsBad o = is_bad o.1 ≡ true

abbrev pub IsGood : Observation → Type 0
IsGood o = is_bad o.1 ≡ false

-- A run by its first observation, the others, and whether a good observation ended it.
pub record Run : Type 0 where
  pub first : Observation
  pub more : List Observation
  pub ended : Bool

-- How a stream falls into maximal runs.
pub data Segments : List Observation → List Run → Type 0 where
  nothing : Segments [] []
  skip :
      (o : Observation) {os : List Observation} {rs : List Run}
      → IsGood o
      → Segments os rs
      → Segments (o ∷ os) rs
  ongoing :
      (o : Observation) (more : List Observation)
      → IsBad o
      → All IsBad more
      → Segments (o ∷ more) (record { first = o; more = more; ended = false } ∷ [])
  ended :
      (o : Observation) (more : List Observation) (g : Observation) {os : List Observation}
      {rs : List Run}
      → IsBad o
      → All IsBad more
      → IsGood g
      → Segments os rs
      → Segments (o ∷ more ++ g ∷ os) (record { first = o; more = more; ended = true } ∷ rs)

unfoldable pub last_status : CheckStatus → List Observation → CheckStatus
last_status s [] = s
last_status s (o ∷ os) = last_status o.1 os

unfoldable pub last_seen : Option DateTime → List Observation → Option DateTime
last_seen t [] = t
last_seen t (o ∷ os) = last_seen (some o.0) os

unfoldable pub first_error : Option String → List Observation → Option String
first_error e [] = e
first_error e (o ∷ os) = first_error (or_else e o.2) os

unfoldable pub since : DateTime → Option DateTime → Option ℕ
since start none = none
since start (some t) = some (secs_between start t)

-- What an incident says of its run: it starts with the first observation, counts them all, has the
-- last one's status and the first error that is given, and ends with the last one if a good
-- observation ended the run and more than one was seen.
unfoldable pub summary : Uuid → Uuid → Run → Incident
unfolding new_incident last_status last_seen first_error since
summary id target_id r =
    let start = r.first.0 in
    let seen : Option DateTime = elim r.ended [ true ↦ last_seen none r.more | false ↦ none ] in
    record (new_incident id target_id start r.first.1 r.first.2) {
      check_count = suc (length r.more);
      status = last_status r.first.1 r.more;
      error_sample = first_error r.first.2 r.more;
      ended_at = seen;
      duration_secs = since start seen;
    }

unfoldable pub summaries : (ℕ → Uuid) → Uuid → ℕ → List Run → List Incident
unfolding summary
summaries fresh target_id n [] = []
summaries fresh target_id n (r ∷ rs) =
    summary (fresh n) target_id r ∷ summaries fresh target_id (suc n) rs

last_status-snoc :
    (s : CheckStatus) (os : List Observation) (o : Observation) → last_status s (os ++ o ∷ []) ≡ o.1
unfolding last_status
last_status-snoc s [] o = refl
last_status-snoc s (p ∷ os) o = last_status-snoc p.1 os o

last_seen-snoc :
    (t : Option DateTime) (os : List Observation) (o : Observation)
    → last_seen t (os ++ o ∷ []) ≡ some o.0
unfolding last_seen
last_seen-snoc t [] o = refl
last_seen-snoc t (p ∷ os) o = last_seen-snoc (some p.0) os o

first_error-snoc :
    (e : Option String) (os : List Observation) (o : Observation)
    → first_error e (os ++ o ∷ []) ≡ or_else (first_error e os) o.2
unfolding first_error
first_error-snoc e [] o = refl
first_error-snoc e (p ∷ os) o = first_error-snoc (or_else e p.2) os o

length-snoc : (os : List Observation) (o : Observation) → length (os ++ o ∷ []) ≡ length os + 1
length-snoc [] o = omega arith
length-snoc (p ∷ os) o = omega (arith, length-snoc os o)

-- The run seen so far, as the loop holds it.
abbrev pub held : Uuid → Uuid → Observation → List Observation → Incident
held id target_id o more = summary id target_id (record { first = o; more = more; ended = true })

pub held-extend :
    (id target_id : Uuid) (o : Observation) (more : List Observation) (p : Observation)
    → extend_incident (held id target_id o more) p.0 p.1 p.2 ≡ held id target_id o (more ++ p ∷ [])
unfolding summary extend_incident new_incident since
held-extend id target_id o more p = ground (
  arith,
  length-snoc more p,
  last_status-snoc o.1 more p,
  last_seen-snoc none more p,
  first_error-snoc o.2 more p,
)

-- What the loop still yields describes the runs of the observations that are left.
abbrev Describes : (ℕ → Uuid) → Uuid → ℕ → List Observation → List Incident → Type 0
Describes fresh target_id n os out =
    (rs : List Run) × Segments os rs × (out ≡ summaries fresh target_id n rs)

module _ (fresh : ℕ → Uuid) (target_id : Uuid) where
  held_last :
      (n : ℕ) (o : Observation) (more : List Observation)
      → finish (some (held (fresh n) target_id o more))
        ≡ summaries fresh target_id n (record { first = o; more = more; ended = false } ∷ [])
  unfolding finish summaries since
  held_last n o more = refl

  mutual
    unfolding coalesce_from summaries

    outside :
        (n : ℕ) (os : List Observation)
        → Describes fresh target_id n os (coalesce_from fresh target_id n none os)
    outside n [] = ([], nothing, refl)
    outside n (p ∷ os) = elim (Bool-cases (is_bad p.1)) [
      | inl bad ↦ rw (bad, coalesce_from) (within n p [] os bad tt)
      | inr good ↦
          let (rs, seg, e) = outside n os in (rs, skip p good seg, rw (good, coalesce_from) e)
    ]

    within :
        (n : ℕ) (o : Observation) (more os : List Observation)
        → IsBad o
        → All IsBad more
        → Describes fresh target_id n
            (o ∷ more ++ os)
            (coalesce_from fresh target_id (suc n) (some (held (fresh n) target_id o more)) os)
    within n o more [] b bs = (
      record { first = o; more = more; ended = false } ∷ [],
      rw (append-nil more) (ongoing o more b bs),
      held_last n o more,
    )
    within n o more (p ∷ os) b bs = elim (Bool-cases (is_bad p.1)) [
      | inl bad ↦
          rw (bad, coalesce_from)
            (rw (held-extend (fresh n) target_id o more p, ← append_assoc more (p ∷ []) os)
              (within n o (more ++ p ∷ []) os b (All-append IsBad more (p ∷ []) bs (bad, tt))))
      | inr good ↦
          let (rs, seg, e) = outside (suc n) os in
          (
            record { first = o; more = more; ended = true } ∷ rs,
            ended o more p b bs good seg,
            rw (good, coalesce_from) (ap (◌∷◌ (held (fresh n) target_id o more)) e),
          )
    ]

-- Coalescing yields one incident for each maximal run of bad observations, in order, and each says
-- of its run what `summary` says.
pub coalesce_incidents-Segments :
    (fresh : ℕ → Uuid) (target_id : Uuid) (observations : List Observation)
    → (rs : List Run) × Segments observations rs
      × (coalesce_incidents fresh target_id observations ≡ summaries fresh target_id 0 rs)
unfolding coalesce_incidents
coalesce_incidents-Segments fresh target_id observations = outside fresh target_id 0 observations
