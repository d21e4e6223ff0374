-- ===== src/Storage/Incidents/Single.antt =====
-- Targets with at most one open incident in the incident map of crates/storage/src/memory.rs.
use statuspage.Base.{
  ◌≡◌, refl, sym, ◌⊎◌, inl, inr, true, false, none, some, arith, ◌==◌, is_none, is_some,
  if◌then◌else◌, Bool-cases,
}
use statuspage.Base.Dict.{Dict, get, insert, get-insert, IsKeyed, insert-IsKeyed, stored_under_key}
use statuspage.Domain.Time.{Uuid}
use statuspage.Domain.Incident.{Incident}
use statuspage.Storage.Memory.{MemoryStorage}
use statuspage.Storage.Incidents.{find_open_incident_for_target}
use statuspage.Storage.Incidents.Open.{find_open-Found, find_open-All}

-- Incidents are stored under their ids, and two open ones of one target are the same.
pub record IsSingle (incidents : Dict Incident) : Type 0 where
  pub keyed : IsKeyed (λ i. i.id) incidents
  pub single :
      (a b : Uuid) (i j : Incident)
      → get a incidents ≡ some i
      → get b incidents ≡ some j
      → i.target_id ≡ j.target_id
      → i.ended_at ≡ none
      → j.ended_at ≡ none
      → a ≡ b

-- No incident of the target is open.
abbrev pub NoneOpen : Uuid → Dict Incident → Type 0
NoneOpen target_id incidents =
    (id : Uuid) (j : Incident)
    → get id incidents ≡ some j
    → j.target_id ≡ target_id
    → ¬ (j.ended_at ≡ none)

pub none_found-NoneOpen :
    (target_id : Uuid) (m : MemoryStorage)
    → find_open_incident_for_target target_id m ≡ none
    → NoneOpen target_id m.incidents
none_found-NoneOpen target_id m e = elim (find_open-Found target_id m) [
  | inl h ↦ h.1
  | inr (i, found, h) ↦ cc
]

pub NoneOpen-none_found :
    (target_id : Uuid) (m : MemoryStorage)
    → IsSingle m.incidents
    → NoneOpen target_id m.incidents
    → find_open_incident_for_target target_id m ≡ none
NoneOpen-none_found target_id m h clear = elim (find_open-Found target_id m) [
  | inl k ↦ k.0
  | inr (i, found, latest) ↦
      let at : get i.id m.incidents ≡ some i =
        find_open-All target_id m (λ x. get x.id m.incidents ≡ some x) i found
          (stored_under_key (λ x. x.id) m.incidents h.keyed) in
      absurd (clear i.id i at latest.target latest.ongoing)
]

-- The entry that a changed map holds is the new one, or it was there.
insert_cases :
    (k a : Uuid) (v i : Incident) (d : Dict Incident)
    → get a (insert k v d) ≡ some i
    → ((k ≡ a) × (v ≡ i)) ⊎ (((k == a) ≡ false) × (get a d ≡ some i))
insert_cases k a v i d e = elim (Bool-cases (k == a)) [
  | inl y ↦
      let at : get a (insert k v d) ≡ (if k == a then some v else get a d) = get-insert k a v d in
      inl (ground arith, ground arith)
  | inr n ↦
      let at : get a (insert k v d) ≡ (if k == a then some v else get a d) = get-insert k a v d in
      inr (n, ground arith)
]

-- A new open incident may be stored where no open one of its target is.
pub insert_open-IsSingle :
    (v : Incident) (d : Dict Incident)
    → IsSingle d
    → NoneOpen v.target_id d
    → IsSingle (insert v.id v d)
insert_open-IsSingle v d h clear = record {
  keyed = insert-IsKeyed (λ x. x.id) v d h.keyed;
  single = λ a b i j at_a at_b same open_i open_j. elim (insert_cases v.id a v i d at_a) [
    | inl new_a ↦ elim (insert_cases v.id b v j d at_b) [
      | inl new_b ↦ cc
      | inr old_b ↦ absurd (clear b j old_b.1 (cc) open_j)
    ]
    | inr old_a ↦ elim (insert_cases v.id b v j d at_b) [
      | inl new_b ↦ absurd (clear a i old_a.1 (cc) open_i)
      | inr old_b ↦ h.single a b i j old_a.1 old_b.1 same open_i open_j
    ]
  ];
}

-- A closed incident may be stored anywhere.
pub insert_closed-IsSingle :
    (v : Incident) (d : Dict Incident)
    → IsSingle d
    → is_some v.ended_at ≡ true
    → IsSingle (insert v.id v d)
insert_closed-IsSingle v d h closed = record {
  keyed = insert-IsKeyed (λ x. x.id) v d h.keyed;
  single = λ a b i j at_a at_b same open_i open_j. elim (insert_cases v.id a v i d at_a) [
    | inl new_a ↦ cc
    | inr old_a ↦ elim (insert_cases v.id b v j d at_b) [
      | inl new_b ↦ cc
      | inr old_b ↦ h.single a b i j old_a.1 old_b.1 same open_i open_j
    ]
  ];
}

-- Once the one open incident of a target is stored closed, none is open.
pub insert_closed-NoneOpen :
    (v i : Incident) (d : Dict Incident)
    → IsSingle d
    → get v.id d ≡ some i
    → i.ended_at ≡ none
    → is_some v.ended_at ≡ true
    → NoneOpen i.target_id (insert v.id v d)
insert_closed-NoneOpen v i d h at ongoing closed = λ a j at_a same open_j.
    elim (insert_cases v.id a v j d at_a) [
      | inl new_a ↦ let shut : is_some j.ended_at ≡ true = rw (sym new_a.1) closed in cc
      | inr old_a ↦
          let key : v.id ≡ a = h.single v.id a i j at old_a.1 (sym same) ongoing open_j in
          ground arith
    ]

-- The open incident that is found is stored under its id.
pub found-stored :
    (target_id : Uuid) (m : MemoryStorage) (i : Incident)
    → IsSingle m.incidents
    → find_open_incident_for_target target_id m ≡ some i
    → (get i.id m.incidents ≡ some i) × (i.target_id ≡ target_id) × (i.ended_at ≡ none)
found-stored target_id m i h e = elim (find_open-Found target_id m) [
  | inl k ↦ cc
  | inr (j, found, latest) ↦
      let same : j ≡ i = cc in
      (
        find_open-All target_id m (λ x. get x.id m.incidents ≡ some x) i e
            (stored_under_key (λ x. x.id) m.incidents h.keyed),
        rw (sym same) latest.target,
        rw (sym same) latest.ongoing,
      )
]

-- An open incident that is stored is found, or another of its target is.
pub stored_open-found :
    (m : MemoryStorage) (id : Uuid) (i : Incident)
    → get id m.incidents ≡ some i
    → i.ended_at ≡ none
    → is_none (find_open_incident_for_target i.target_id m) ≡ false
stored_open-found m id i at ongoing = elim (find_open-Found i.target_id m) [
  | inl k ↦ absurd (k.1 id i at refl ongoing)
  | inr (j, found, latest) ↦ rw found
]
