-- ===== src/Storage/Incidents/Ops.antt =====
-- What `apply_incident_ops` of crates/storage/src/memory.rs does on every branch.
use statuspage.Base.{
  ◌≡◌, ◌≢◌, ◌⊎◌, refl, inl, inr, Option, some, is_some, String, arith, Option-cases, Bool-cases,
  ◌==◌,
}
use mathlib.Core.Path.{subst}
use statuspage.Base.Dict.{get, insert, get-insert, get-insert_self, IsKeyed, key-of, insert-IsKeyed}
use statuspage.Domain.Time.{Uuid, DateTime}
use statuspage.Domain.Incident.{Incident}
use statuspage.Domain.Incident.Lifecycle.{next_state}
use statuspage.Storage.Memory.{MemoryStorage, Result, ok, err, StorageError, not_found}
use statuspage.Storage.Incidents.{
  IncidentOpsPatch, apply_transition, store_amended, amend, apply_incident_ops,
}

-- An incident has a duration exactly if it has an end.
abbrev pub IsConsistent : Incident → Type 0
IsConsistent i = is_some i.ended_at ≡ is_some i.duration_secs

-- Every stored incident is consistent.
abbrev pub AllConsistent : MemoryStorage → Type 0
AllConsistent m = (id : Uuid) (i : Incident) → get id m.incidents ≡ some i → IsConsistent i

-- The two incidents are the same outage: a patch may not change these fields.
pub record SameOutage (i j : Incident) : Type 0 where
  pub id : i.id ≡ j.id
  pub target_id : i.target_id ≡ j.target_id
  pub started_at : i.started_at ≡ j.started_at
  pub check_count : i.check_count ≡ j.check_count
  pub error_sample : i.error_sample ≡ j.error_sample

apply_transition-kept :
    (now : DateTime) (t : Option String) (i j : Incident)
    → apply_transition now t i ≡ ok j
    → SameOutage i j × (IsConsistent i → IsConsistent j)
unfolding apply_transition next_state
apply_transition-kept now t i j h = ground arith

amend-kept :
    (now : DateTime) (patch : IncidentOpsPatch) (i : Incident)
    → SameOutage i (amend now patch i)
      × (IsConsistent i → IsConsistent (amend now patch i))
      × ((amend now patch i).updated_at ≡ some now)
amend-kept now patch i = ground arith

SameOutage-trans : {i j k : Incident} → SameOutage i j → SameOutage j k → SameOutage i k
SameOutage-trans p q = ground arith

-- What a call promises of the storage that it leaves and of its result.
pub record Kept (now : DateTime) (id : Uuid) (m m' : MemoryStorage) (r : Result Incident)
    : Type 0 where
  pub outcome :
      ((e : StorageError) × (r ≡ err e) × (m' ≡ m))
      ⊎ ((i : Incident) × (j : Incident) × (r ≡ ok j)
          × (get id m.incidents ≡ some i)
          × (get id m'.incidents ≡ some j)
          × SameOutage i j
          × (j.updated_at ≡ some now))
  pub others : (k : Uuid) → k ≢ id → get k m'.incidents ≡ get k m.incidents
  pub paging : m'.escalation_states ≡ m.escalation_states

Kept-refused :
    (now : DateTime) (id : Uuid) (m : MemoryStorage) (e : StorageError) → Kept now id m m (err e)
Kept-refused now id m e = record {
  outcome = inl (e, refl, refl);
  others = λ k n. refl;
  paging = refl;
}

insert-AllConsistent :
    (id : Uuid) (j : Incident) (m : MemoryStorage)
    → IsConsistent j
    → AllConsistent m
    → AllConsistent (record m { incidents = insert id j m.incidents })
insert-AllConsistent id j m keep a k x h = elim (Bool-cases (id == k)) [
  | inl y ↦
      let same : j ≡ x = ground (arith, get-insert id k j m.incidents) in
      subst IsConsistent same keep
  | inr n ↦ a k x (ground (arith, get-insert id k j m.incidents))
]

Kept-stored :
    (now : DateTime) (id : Uuid) (patch : IncidentOpsPatch) (m : MemoryStorage) (i j : Incident)
    → get id m.incidents ≡ some i
    → SameOutage i j
    → Kept now id m (store_amended now id patch m (ok j)).0 (store_amended now id patch m (ok j)).1
unfolding store_amended
Kept-stored now id patch m i j found same = record {
  outcome = inr (
    i,
    amend now patch j,
    refl,
    found,
    get-insert_self id (amend now patch j) m.incidents,
    SameOutage-trans same (amend-kept now patch j).0,
    (amend-kept now patch j).2,
  );
  others = λ k n. ground (arith, get-insert id k (amend now patch j) m.incidents);
  paging = refl;
}

Result-cases {ℓ} :
    {A : Type ℓ} (r : Result A) → ((e : StorageError) × (r ≡ err e)) ⊎ ((a : A) × (r ≡ ok a))
Result-cases (err e) = inl (e, refl)
Result-cases (ok a) = inr (a, refl)

-- A call either fails and leaves the storage as it was, or stores an incident that is still the same
-- outage, stamped with the time of the call. No other incident changes, and the escalation states are
-- left alone.
pub apply_incident_ops-Kept :
    (now : DateTime) (id : Uuid) (patch : IncidentOpsPatch) (m : MemoryStorage)
    → Kept now id m (apply_incident_ops now id patch m).0 (apply_incident_ops now id patch m).1
unfolding apply_incident_ops
apply_incident_ops-Kept now id patch m = elim (Option-cases (get id m.incidents)) [
  | inl missing ↦ rw (missing, apply_incident_ops) (Kept-refused now id m not_found)
  | inr (i, found) ↦ elim (Result-cases (apply_transition now patch.transition i)) [
    | inl (e, refused) ↦
        rw (found, apply_incident_ops) (rw (refused, store_amended) (Kept-refused now id m e))
    | inr (j, accepted) ↦
        rw (found, apply_incident_ops)
          (rw accepted (
            Kept-stored now id patch m i j found
              (apply_transition-kept now patch.transition i j accepted).0))
  ]
]

-- If every stored incident has a duration exactly if it has an end, that is still so after any patch,
-- accepted or refused.
pub apply_incident_ops-AllConsistent :
    (now : DateTime) (id : Uuid) (patch : IncidentOpsPatch) (m : MemoryStorage)
    → AllConsistent m
    → AllConsistent (apply_incident_ops now id patch m).0
unfolding apply_incident_ops store_amended
apply_incident_ops-AllConsistent now id patch m a = elim (Option-cases (get id m.incidents)) [
  | inl missing ↦ rw (missing, apply_incident_ops) a
  | inr (i, found) ↦ elim (Result-cases (apply_transition now patch.transition i)) [
    | inl (e, refused) ↦ rw (found, apply_incident_ops) (rw (refused, store_amended) a)
    | inr (j, accepted) ↦
        let keep = (apply_transition-kept now patch.transition i j accepted).1 in
        rw (found, apply_incident_ops)
          (rw (accepted, store_amended)
            (insert-AllConsistent id (amend now patch j) m
              ((amend-kept now patch j).1 (keep (a id i found))) a))
  ]
]

-- A patch keeps the incidents under their ids.
pub apply_incident_ops-IsKeyed :
    (now : DateTime) (id : Uuid) (patch : IncidentOpsPatch) (m : MemoryStorage)
    → IsKeyed (λ i. i.id) m.incidents
    → IsKeyed (λ i. i.id) (apply_incident_ops now id patch m).0.incidents
unfolding apply_incident_ops store_amended
apply_incident_ops-IsKeyed now id patch m keyed = elim (Option-cases (get id m.incidents)) [
  | inl e ↦ rw (apply_incident_ops, e) keyed
  | inr (i, e) ↦
      let key : i.id ≡ id = key-of (λ x. x.id) m.incidents keyed id i e in
      rw (apply_incident_ops, e) (stored i key (apply_transition now patch.transition i) refl)
]
  where
    stored :
        (i : Incident)
        → i.id ≡ id
        → (r : Result Incident) → apply_transition now patch.transition i ≡ r
        → IsKeyed (λ x. x.id) (store_amended now id patch m r).0.incidents
    stored i key (err e) h = keyed
    stored i key (ok j) h =
        let amended = amend now patch j in
        let from_i : i.id ≡ j.id = (apply_transition-kept now patch.transition i j h).0.id in
        let from_j : j.id ≡ amended.id = (amend-kept now patch j).0.id in
        let same : amended.id ≡ id = ground arith in
        subst (λ k. IsKeyed (λ x. x.id) (insert k amended m.incidents)) same
          (insert-IsKeyed (λ x. x.id) amended m.incidents keyed)
