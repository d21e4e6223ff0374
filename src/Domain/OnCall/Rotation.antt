-- ===== src/Domain/OnCall/Rotation.antt =====
-- What `resolve_on_call` of crates/core/src/domain/on_call.rs answers while no override covers the
-- instant: the current slot of the top layer.
use statuspage.Base.{
  ℕ, ◌≤◌, ◌<◌, ◌%◌, true, false, some, List, [], ◌∷◌, filter, any, All, All-filter_inv,
  filter-passes, All-both, All-map, Among, Bool-cases, inl, inr, ◌≡◌, ◌≢◌, refl, sym, arith, ◌⊎◌,
  length, get_elem?, get_elem?-some, any-none, filter-Among, unwrap_or, ltb_ℤ, ◌≤ℤ◌,
}
use mathlib.Core.Path.{subst}
use native.Mathlib.Nat.{mod-lt}
use statuspage.Base.Sort.{
  sort_by, sort_by-All, sort_by-All_inv, length-sort_by, IsSorted, IsOrder, sort_by-IsSorted,
}
use statuspage.Domain.Time.{Uuid, DateTime}
use statuspage.Domain.OnCall.Slot.{
  OnCallLayer, OnCallParticipant, Zone, by_position, in_slot, layer_on_call, rotation_index,
}
use statuspage.Domain.OnCall.Resolve.{
  Zones, OnCallSchedule, OnCallOverride, covers, has_participants, outranks, first_on_call,
  rotation_on_call, resolve_on_call,
}

outranks-IsOrder : IsOrder outranks
unfolding outranks
outranks-IsOrder = record { asymm = λ a b h. ground arith; le_trans = λ a b c h k. ground arith }

-- Where there are participants, every slot has one of them.
in_slot-some :
    (ps : List OnCallParticipant) (idx : ℕ)
    → has_participants ps ≡ true
    → (q : OnCallParticipant) × (get_elem? (by_position ps) (idx % length ps) ≡ some q)
      × (in_slot ps idx ≡ some q.user_id)
unfolding in_slot by_position has_participants
in_slot-some [] idx h = absurd (cc)
in_slot-some (p ∷ ps) idx h =
    let lt = λ (a b : OnCallParticipant). ltb_ℤ a.position b.position in
    let bound : idx % length (p ∷ ps) < length (by_position (p ∷ ps)) =
      subst (λ n. idx % length (p ∷ ps) < n) (sym (length-sort_by lt (p ∷ ps)))
        (mod-lt idx (omega arith)) in
    let (q, e) = get_elem?-some (by_position (p ∷ ps)) (idx % length (p ∷ ps)) bound in
    (q, e, rw (e, in_slot) refl)

-- No layer with participants has a higher order, nor the same order and an earlier creation.
abbrev pub Tops : OnCallLayer → OnCallLayer → Type 0
Tops l m =
    m.participants ≢ []
    → (m.layer_order ≤ℤ l.layer_order)
      × (m.layer_order ≡ l.layer_order → l.created_at ≤ m.created_at)

outranks-Tops : (l m : OnCallLayer) → outranks m l ≡ false → Tops l m
unfolding outranks
outranks-Tops l m h _ = (ground arith, λ e. ground (arith, e))

outranks_irrefl : (l : OnCallLayer) → outranks l l ≡ false
unfolding outranks
outranks_irrefl l = ground arith

has_participants_lem : (ps : List OnCallParticipant) → ps ≢ [] → has_participants ps ≡ true
unfolding has_participants
has_participants_lem [] h = absurd (h refl)
has_participants_lem (p ∷ ps) h = refl

no_participants : (ps : List OnCallParticipant) → has_participants ps ≡ false → ps ≡ []
unfolding has_participants
no_participants [] h = refl
no_participants (p ∷ ps) h = absurd (cc)

-- The user on duty in a layer: the participant in the current slot of those sorted by position.
abbrev pub OnDuty : Zone → DateTime → OnCallLayer → Uuid → Type 0
OnDuty z at l u =
    (q : OnCallParticipant) × (get_elem? (by_position l.participants)
        (rotation_index l z at % length l.participants)
      ≡ some q)
    × (u ≡ q.user_id)

layer_on_call-OnDuty :
    (l : OnCallLayer) (z : Zone) (at : DateTime)
    → has_participants l.participants ≡ true
    → (u : Uuid) × (layer_on_call l z at ≡ some u) × OnDuty z at l u
unfolding layer_on_call
layer_on_call-OnDuty l z at h =
    let (q, found, got) = in_slot-some l.participants (rotation_index l z at) h in
    (q.user_id, got, (q, found, refl))

abbrev ranked : List OnCallLayer → List OnCallLayer
ranked layers = sort_by outranks (filter (λ l. has_participants l.participants) layers)

-- Nobody is on call, or one user of a top layer is.
abbrev pub Answers : Zone → DateTime → List OnCallLayer → List Uuid → Type 0
Answers z at layers out =
    (All (λ l. l.participants ≡ []) layers × (out ≡ []))
    ⊎ ((l : OnCallLayer) × Among l layers
        × (l.participants ≢ [])
        × All (Tops l) layers
        × (u : Uuid) × OnDuty z at l u
        × (out ≡ u ∷ []))

module _ (z : Zone) (at : DateTime) (layers : List OnCallLayer) where
  abbrev kept : List OnCallLayer
  kept = filter (λ l. has_participants l.participants) layers

  -- What holds of every ranked layer holds of every layer with participants.
  ranked-All_inv :
      (P : OnCallLayer → Type 0)
      → All P (ranked layers)
      → All (λ l. has_participants l.participants ≡ true → P l) layers
  ranked-All_inv P h =
      All-filter_inv P (λ l. has_participants l.participants) layers
        (sort_by-All_inv outranks P kept h)

  ranked-Among :
      All (λ l. Among l layers × (has_participants l.participants ≡ true)) (ranked layers)
  ranked-Among =
      sort_by-All outranks (λ l. Among l layers × (has_participants l.participants ≡ true)) kept
        (All-both (λ l. Among l layers) (λ l. has_participants l.participants ≡ true) kept
          (filter-Among (λ l. has_participants l.participants) layers)
          (filter-passes (λ l. has_participants l.participants) layers))

  first_on_call-Answers :
      (rs : List OnCallLayer)
      → IsSorted outranks rs
      → All (λ l. Among l layers × (has_participants l.participants ≡ true)) rs
      → ((P : OnCallLayer → Type 0)
          → All P rs
          → All (λ l. has_participants l.participants ≡ true → P l) layers)
      → Answers z at layers (first_on_call z at rs)
  unfolding first_on_call has_participants
  first_on_call-Answers [] s m inv = inl (
    All-map (λ l. has_participants l.participants ≡ true → false ≡ true) (λ l. l.participants ≡ [])
        (λ l f.
          no_participants l.participants (elim (Bool-cases (has_participants l.participants)) [
            | inl y ↦ absurd (let no_way = f y in cc)
            | inr n ↦ n
          ]))
        layers (inv (λ l. false ≡ true) tt),
    refl,
  )
  first_on_call-Answers (l ∷ rs) s m inv =
      let (u, got, duty) = layer_on_call-OnDuty l z at m.0.1 in
      let full : l.participants ≢ [] = λ e.
        let gone : has_participants l.participants ≡ false = rw e refl in
        let held = m.0.1 in absurd (cc) in
      inr (
        l,
        m.0.0,
        full,
        All-map (λ k. has_participants k.participants ≡ true → outranks k l ≡ false) (Tops l)
            (λ k f some_in.
              outranks-Tops l k (f (has_participants_lem k.participants some_in)) some_in)
            layers (inv (λ k. outranks k l ≡ false) (outranks_irrefl l, s.0)),
        u,
        duty,
        rw (got, first_on_call) refl,
      )

  rotation_on_call-Answers : Answers z at layers (rotation_on_call z layers at)
  unfolding rotation_on_call
  rotation_on_call-Answers =
      first_on_call-Answers (ranked layers) (sort_by-IsSorted outranks outranks-IsOrder kept)
        ranked-Among ranked-All_inv

-- While no override covers the instant, nobody is on call where no layer has participants; otherwise
-- exactly one user is: the participant in the current slot of a layer that no other layer with
-- participants outranks by order, or by age at the same order. The zone is the schedule's, or UTC
-- where its name is not known.
pub resolve_on_call-rotation :
    (zones : Zones) (schedule : OnCallSchedule) (layers : List OnCallLayer)
    (overrides : List OnCallOverride) (at : DateTime)
    → any (covers at) overrides ≡ false
    → Answers
        (unwrap_or (zones.from_str schedule.timezone) zones.utc)
        at
        layers
        (resolve_on_call zones schedule layers overrides at)
unfolding resolve_on_call
resolve_on_call-rotation zones schedule layers overrides at h =
    rw (any-none (covers at) overrides h, resolve_on_call)
      (rotation_on_call-Answers (unwrap_or (zones.from_str schedule.timezone) zones.utc) at layers)
