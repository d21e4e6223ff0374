-- ===== src/Storage/Deliveries/Claims.antt =====
-- Dispatchers that call `claim_delivery` of crates/storage/src/memory.rs one after the other, in any
-- order.
use statuspage.Base.{
  ℕ, ◌+◌, ◌≤◌, ◌≡◌, refl, sym, ap, arith, Bool, true, false, ◌&&◌, ◌==◌, none, some, is_some, List,
  [], ◌∷◌, Bool-cases, inl, inr, ◌⊎◌, ◌∙◌, if◌then◌else◌,
}
use mathlib.Core.Path.{subst}
use statuspage.Domain.Time.{Uuid, DateTime}
use statuspage.Domain.Status.{DeliveryStatus, claimed}
use statuspage.Domain.Delivery.{SubscriberDelivery}
use statuspage.Storage.Memory.{MemoryStorage}
use statuspage.Storage.Deliveries.{claimable, claim_row, claim_delivery}

abbrev is_claimed : DeliveryStatus → Bool
is_claimed claimed = true
is_claimed _ = false

-- The first row with the id is claimed.
unfoldable taken : Uuid → List SubscriberDelivery → Bool
taken id [] = false
taken id (d ∷ ds) = let rest = taken id ds in if d.id == id then is_claimed d.status else rest

claimable-claimed :
    (now : DateTime) (d : SubscriberDelivery) → is_claimed d.status ≡ true → claimable now d ≡ false
unfolding claimable
claimable-claimed now d h = ground arith

module _ (now : DateTime) (id : Uuid) (d : SubscriberDelivery) (ds : List SubscriberDelivery) where
  pub claim_row-open :
      (d.id == id) ≡ true
      → claimable now d ≡ true
      → claim_row now id (d ∷ ds)
        ≡ (record d { status = claimed } ∷ ds, some (record d { status = claimed }))
  unfolding claim_row
  claim_row-open same free = rw (same, free)

  pub claim_row-shut :
      (d.id == id) ≡ true → claimable now d ≡ false → claim_row now id (d ∷ ds) ≡ (d ∷ ds, none)
  unfolding claim_row
  claim_row-shut same busy = rw (same, busy)

  pub claim_row-other :
      (d.id == id) ≡ false
      → claim_row now id (d ∷ ds) ≡ (d ∷ (claim_row now id ds).0, (claim_row now id ds).1)
  unfolding claim_row
  claim_row-other apart = rw apart

  taken-same : (d.id == id) ≡ true → taken id (d ∷ ds) ≡ is_claimed d.status
  unfolding taken
  taken-same same = rw same

  taken-other : (d.id == id) ≡ false → taken id (d ∷ ds) ≡ taken id ds
  unfolding taken
  taken-other apart = rw apart

claim_row-refused :
    (now : DateTime) (id : Uuid) (ds : List SubscriberDelivery)
    → taken id ds ≡ true
    → claim_row now id ds ≡ (ds, none)
unfolding taken
claim_row-refused now id [] h = cc
claim_row-refused now id (d ∷ ds) h = elim (Bool-cases (d.id == id)) [
  | inl y ↦
      let closed : is_claimed d.status ≡ true = sym (taken-same now id d ds y) ∙ h in
      claim_row-shut now id d ds y (claimable-claimed now d closed)
  | inr n ↦
      let rest : taken id ds ≡ true = sym (taken-other now id d ds n) ∙ h in
      rw (claim_row-other now id d ds n, claim_row-refused now id ds rest)
]

claim_row-taken :
    (now : DateTime) (id : Uuid) (ds : List SubscriberDelivery)
    → is_some (claim_row now id ds).1 ≡ true
    → taken id (claim_row now id ds).0 ≡ true
unfolding claim_row
claim_row-taken now id [] h = cc
claim_row-taken now id (d ∷ ds) h = elim (Bool-cases (d.id == id)) [
  | inl y ↦ elim (Bool-cases (claimable now d)) [
    | inl c ↦
        rw (claim_row-open now id d ds y c, taken-same now id (record d { status = claimed }) ds y)
    | inr c ↦
        let none_got : is_some (claim_row now id (d ∷ ds)).1 ≡ false =
          ap (λ r. is_some r.1) (claim_row-shut now id d ds y c) in
        cc
  ]
  | inr n ↦
      let other = claim_row-other now id d ds n in
      let got : is_some (claim_row now id ds).1 ≡ true = sym (ap (λ r. is_some r.1) other) ∙ h in
      rw (other, taken-other now id d (claim_row now id ds).0 n, claim_row-taken now id ds got)
]

claim_row-kept :
    (now : DateTime) (id other : Uuid) (ds : List SubscriberDelivery)
    → taken id ds ≡ true
    → taken id (claim_row now other ds).0 ≡ true
unfolding claim_row taken
claim_row-kept now id other [] h = cc
claim_row-kept now id other (d ∷ ds) h = elim (Bool-cases (d.id == other)) [
  | inl y ↦ elim (Bool-cases (claimable now d)) [
    | inl c ↦ rw (claim_row-open now other d ds y c) (kept_head (Bool-cases (d.id == id)))
    | inr c ↦ rw (claim_row-shut now other d ds y c) h
  ]
  | inr n ↦ rw (claim_row-other now other d ds n) (elim (Bool-cases (d.id == id)) [
    | inl y ↦
        rw (taken-same now id d (claim_row now other ds).0 y, sym (taken-same now id d ds y), h)
    | inr k ↦ rw (
      taken-other now id d (claim_row now other ds).0 k,
      claim_row-kept now id other ds (sym (taken-other now id d ds k) ∙ h),
    )
  ])
]
  where
    kept_head :
        (((d.id == id) ≡ true) ⊎ ((d.id == id) ≡ false))
        → taken id (record d { status = claimed } ∷ ds) ≡ true
    kept_head (inl y) = taken-same now id (record d { status = claimed }) ds y
    kept_head (inr n) =
        taken-other now id (record d { status = claimed }) ds n
        ∙ (sym (taken-other now id d ds n) ∙ h)

-- How often a claim of the delivery succeeds when the attempts, each a time and an id, are made in turn.
unfoldable pub successes : Uuid → List (DateTime × Uuid) → MemoryStorage → ℕ
successes id [] m = 0
successes id ((now, k) ∷ attempts) m =
    let step = claim_delivery now k m in
    let rest = successes id attempts step.0 in if k == id && is_some step.1 then 1 + rest else rest

no_more :
    (id : Uuid) (attempts : List (DateTime × Uuid)) (m : MemoryStorage)
    → taken id m.subscriber_deliveries ≡ true
    → successes id attempts m ≡ 0
unfolding successes claim_delivery
no_more id [] m h = refl
no_more id ((now, k) ∷ attempts) m h =
    let rest =
      no_more id attempts (claim_delivery now k m).0
        (claim_row-kept now id k m.subscriber_deliveries h) in
    elim (Bool-cases (k == id)) [
      | inl y ↦
          let same : k ≡ id = ground arith in
          let refused : (claim_row now k m.subscriber_deliveries).1 ≡ none =
            ap (λ r. r.1)
              (claim_row-refused now k m.subscriber_deliveries
                (subst (λ x. taken x m.subscriber_deliveries ≡ true) (sym same) h)) in
          rw (y, refused, rest)
      | inr n ↦ rw (n, rest)
    ]

-- However many attempts to claim deliveries are made, at whatever times and in whatever order, a
-- delivery is handed out at most once as long as it is not marked in between.
pub claims-once :
    (id : Uuid) (attempts : List (DateTime × Uuid)) (m : MemoryStorage)
    → successes id attempts m ≤ 1
unfolding successes claim_delivery
claims-once id [] m = omega arith
claims-once id ((now, k) ∷ attempts) m =
    let rest = claims-once id attempts (claim_delivery now k m).0 in
    elim (Bool-cases (k == id && is_some (claim_row now k m.subscriber_deliveries).1)) [
      | inl y ↦
          let same : k ≡ id = ground arith in
          let got : is_some (claim_row now k m.subscriber_deliveries).1 ≡ true =
            ground (arith, y) in
          let gone : taken id (claim_row now k m.subscriber_deliveries).0 ≡ true =
            subst (λ x. taken x (claim_row now k m.subscriber_deliveries).0 ≡ true) same
              (claim_row-taken now k m.subscriber_deliveries got) in
          rw (y, no_more id attempts (claim_delivery now k m).0 gone) (omega arith)
      | inr n ↦ rw n rest
    ]
