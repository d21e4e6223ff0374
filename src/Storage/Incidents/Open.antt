-- ===== src/Storage/Incidents/Open.antt =====
-- Which incident `find_open_incident_for_target` of crates/storage/src/memory.rs finds.
use statuspage.Base.{
  ◌≤◌, ◌≡◌, refl, ap, ◌↔◌, ◌⊎◌, inl, inr, true, false, Bool, none, some, List, [], ◌∷◌, arith,
  filter, All, All-filter, All-filter_inv, filter-passes, head?,
}
use mathlib.Core.Path.{subst}
use native.Mathlib.Nat.{le_refl}
use statuspage.Base.Dict.{get, values, values-All}
use statuspage.Base.Sort.{
  sort_by, IsSorted, IsOrder, sort_by-All, sort_by-All_inv, sort_by-IsSorted,
}
use statuspage.Domain.Time.{Uuid}
use statuspage.Domain.Incident.{Incident}
use statuspage.Storage.Memory.{MemoryStorage}
use statuspage.Storage.Incidents.{newest_first, open_on, find_open_incident_for_target}

newest_first-IsOrder : IsOrder newest_first
newest_first-IsOrder = record {
  asymm = λ a b h. ground arith;
  le_trans = λ a b c h k. ground arith;
}

-- The incident is open on the target, is one of those stored, and no open one of the target started
-- later.
pub record IsLatestOpen (target_id : Uuid) (m : MemoryStorage) (i : Incident) : Type 0 where
  pub target : i.target_id ≡ target_id
  pub ongoing : i.ended_at ≡ none
  pub stored : (p : Incident → Bool) → All (λ x. p x ≡ true) (values m.incidents) → p i ≡ true
  pub latest :
      (id : Uuid) (j : Incident)
      → get id m.incidents ≡ some j
      → j.target_id ≡ target_id
      → j.ended_at ≡ none
      → j.started_at ≤ i.started_at

-- What the search says of the sorted open incidents.
abbrev Found : Uuid → MemoryStorage → List Incident → Type 0
Found target_id m [] =
    (id : Uuid) (j : Incident)
    → get id m.incidents ≡ some j
    → j.target_id ≡ target_id
    → ¬ (j.ended_at ≡ none)
Found target_id m (i ∷ is) = IsLatestOpen target_id m i

open_on_iff :
    (target_id : Uuid) (i : Incident)
    → (open_on target_id i ≡ true) ↔ ((i.target_id ≡ target_id) × (i.ended_at ≡ none))
open_on_iff target_id i = ground arith

not_newer :
    (i : Incident) (is : List Incident)
    → All (λ x. newest_first x i ≡ false) is
    → All (λ x. x.started_at ≤ i.started_at) is
not_newer i [] h = tt
not_newer i (x ∷ xs) h = (ground arith, not_newer i xs h.1)

module _ (target_id : Uuid) (m : MemoryStorage) where
  abbrev candidates : List Incident
  candidates = filter (open_on target_id) (values m.incidents)

  -- A property of all candidates holds of every stored incident that is open on the target.
  of_open :
      (P : Incident → Type 0)
      → All P candidates
      → (id : Uuid) (j : Incident) → get id m.incidents ≡ some j
      → j.target_id ≡ target_id
      → j.ended_at ≡ none
      → P j
  of_open P h id j found same ongoing =
      values-All (λ x. open_on target_id x ≡ true → P x) id j m.incidents found
        (All-filter_inv P (open_on target_id) (values m.incidents) h)
        ((open_on_iff target_id j).1 (same, ongoing))

  head_has :
      (P : Incident → Type 0) (i : Incident) (is : List Incident)
      → sort_by newest_first candidates ≡ i ∷ is
      → All P candidates
      → P i
  head_has P i is e h =
      let k : All P (i ∷ is) = subst (All P) e (sort_by-All newest_first P candidates h) in k.0

  sorted :
      (i : Incident) (is : List Incident)
      → sort_by newest_first candidates ≡ i ∷ is
      → IsSorted newest_first (i ∷ is)
  sorted i is e =
      subst (IsSorted newest_first) e
        (sort_by-IsSorted newest_first newest_first-IsOrder candidates)

  found : (is : List Incident) → sort_by newest_first candidates ≡ is → Found target_id m is
  found [] e = λ id j at same ongoing.
      of_open (λ x. ⊥) (sort_by-All_inv newest_first (λ x. ⊥) candidates (rw e tt)) id j at same
        ongoing
  found (i ∷ is) e =
      let open_i = (open_on_iff target_id i).0 (
        head_has (λ x. open_on target_id x ≡ true) i is e
          (filter-passes (open_on target_id) (values m.incidents))) in
      record {
        target = open_i.0;
        ongoing = open_i.1;
        stored = λ p h.
            head_has (λ x. p x ≡ true) i is e
              (All-filter (λ x. p x ≡ true) (open_on target_id) (values m.incidents) h);
        latest = λ id j at same ongoing.
            of_open (λ x. x.started_at ≤ i.started_at)
              (sort_by-All_inv newest_first (λ x. x.started_at ≤ i.started_at) candidates
                (rw e (le_refl i.started_at, not_newer i is (sorted i is e).0)))
              id j at same ongoing;
      }

  -- The search finds the latest open incident of the target, or there is none.
  pub find_open-Found :
      ((find_open_incident_for_target target_id m ≡ none)
        × ((id : Uuid) (j : Incident)
            → get id m.incidents ≡ some j
            → j.target_id ≡ target_id
            → ¬ (j.ended_at ≡ none)))
      ⊎ ((i : Incident) × (find_open_incident_for_target target_id m ≡ some i)
          × IsLatestOpen target_id m i)
  unfolding find_open_incident_for_target
  find_open-Found = cases (sort_by newest_first candidates) refl
    where
      cases :
          (is : List Incident)
          → sort_by newest_first candidates ≡ is
          → ((head? (sort_by newest_first candidates) ≡ none)
              × ((id : Uuid) (j : Incident)
                  → get id m.incidents ≡ some j
                  → j.target_id ≡ target_id
                  → ¬ (j.ended_at ≡ none)))
            ⊎ ((i : Incident) × (head? (sort_by newest_first candidates) ≡ some i)
                × IsLatestOpen target_id m i)
      cases [] e = inl (ap head? e, found [] e)
      cases (i ∷ is) e = inr (i, ap head? e, found (i ∷ is) e)

  -- What holds of every stored incident holds of the one found.
  pub find_open-All :
      (P : Incident → Type 0) (i : Incident)
      → find_open_incident_for_target target_id m ≡ some i
      → All P (values m.incidents)
      → P i
  unfolding find_open_incident_for_target
  find_open-All P i e h = cases (sort_by newest_first candidates) refl e
    where
      cases :
          (is : List Incident)
          → sort_by newest_first candidates ≡ is
          → head? (sort_by newest_first candidates) ≡ some i
          → P i
      cases [] s e = let nothing : head? (sort_by newest_first candidates) ≡ none = ap head? s in cc
      cases (x ∷ is) s e =
          let first : head? (sort_by newest_first candidates) ≡ some x = ap head? s in
          let same_head : x ≡ i = cc in
          subst P same_head
            (head_has P x is s (All-filter P (open_on target_id) (values m.incidents) h))
