-- ===== src/Storage/Deliveries/Retry.antt =====
-- When a delivery that `mark_delivery` of crates/storage/src/memory.rs marked as failed is handed out
-- again.
use statuspage.Base.{
  ℕ, ◌+◌, ◌*◌, ◌^◌, ◌%◌, ◌<◌, ◌≤◌, ◌≡◌, refl, sym, ap, ◌∙◌, arith, Bool, true, false, ◌==◌, Option,
  none, some, is_some, List, [], ◌∷◌, Bool-cases, Option-cases, inl, inr, min, String,
}
use mathlib.Core.Path.{subst}
use native.Mathlib.Nat.{one-le-pow}
use statuspage.Domain.Time.{Uuid, DateTime, nanos}
use statuspage.Domain.Status.{failed}
use statuspage.Domain.Delivery.{SubscriberDelivery}
use statuspage.Storage.Memory.{MemoryStorage, ok, err, not_found}
use statuspage.Storage.Deliveries.{
  claimable, claim_row, claim_delivery, backoff_secs, settle, mark_row, mark_delivery,
}
use statuspage.Storage.Deliveries.Claims.{claim_row-open, claim_row-shut, claim_row-other}

some_eq : {a b : List SubscriberDelivery} → some a ≡ some b → a ≡ b
some_eq h = cc

-- The delay is between half a minute and an hour.
backoff_secs-bounds : (attempts : ℕ) → (30 ≤ backoff_secs attempts) × (backoff_secs attempts ≤ 3600)
unfolding backoff_secs
backoff_secs-bounds attempts =
    let h = one-le-pow (min attempts 7) 2 (omega arith) in (omega arith, omega arith)

-- Whether the delivery is handed out at the given time.
abbrev handed : DateTime → Uuid → List SubscriberDelivery → Bool
handed later id ds = is_some (claim_row later id ds).1

-- The row after a failed attempt: it is handed out from its retry time on.
pub failed_row-claimable :
    (now later : DateTime) (d : SubscriberDelivery)
    → d.status ≡ failed
    → (later < now + 30 * nanos → claimable later (settle now failed d) ≡ false)
      × (now + 3600 * nanos ≤ later → claimable later (settle now failed d) ≡ true)
unfolding claimable settle
failed_row-claimable now later d h =
    let bounds = backoff_secs-bounds d.attempts in
    (
      λ early. rw h (ground (arith, bounds.0, bounds.1)),
      λ late. rw h (ground (arith, bounds.0, bounds.1)),
    )

-- The row that a failure leaves.
abbrev failed_row : DateTime → Option String → SubscriberDelivery → SubscriberDelivery
failed_row now error d =
    settle now failed
      (record d { status = failed; attempts = (d.attempts + 1) % 2 ^ 32; last_error = error })

failed_row-id :
    (now : DateTime) (error : Option String) (d : SubscriberDelivery)
    → (failed_row now error d).id ≡ d.id
unfolding settle
failed_row-id now error d = refl

module _ (now : DateTime) (id : Uuid) (error : Option String) (d : SubscriberDelivery)
    (ds : List SubscriberDelivery) where
  mark_row-here :
      (d.id == id) ≡ true
      → mark_row now id failed error (d ∷ ds) ≡ some (failed_row now error d ∷ ds)
  unfolding mark_row
  mark_row-here same = rw same

  mark_row-later :
      (d.id == id) ≡ false
      → (rows : List SubscriberDelivery) → mark_row now id failed error ds ≡ some rows
      → mark_row now id failed error (d ∷ ds) ≡ some (d ∷ rows)
  unfolding mark_row
  mark_row-later apart rows e = rw (apart, e)

  mark_row-nowhere :
      (d.id == id) ≡ false
      → mark_row now id failed error ds ≡ none
      → mark_row now id failed error (d ∷ ds) ≡ none
  unfolding mark_row
  mark_row-nowhere apart e = rw (apart, e)

-- The rows hand out the delivery neither too early nor too late after the failure.
abbrev Retried : DateTime → DateTime → Uuid → List SubscriberDelivery → Type 0
Retried now later id rows =
    (later < now + 30 * nanos → handed later id rows ≡ false)
    × (now + 3600 * nanos ≤ later → handed later id rows ≡ true)

module _ (now later : DateTime) (id : Uuid) (error : Option String) where
  head-Retried :
      (d : SubscriberDelivery) (ds : List SubscriberDelivery)
      → (d.id == id) ≡ true
      → Retried now later id (failed_row now error d ∷ ds)
  head-Retried d ds same =
      let row = failed_row now error d in
      let key : (row.id == id) ≡ true = rw (failed_row-id now error d) same in
      let wait =
        failed_row-claimable now later
          (record d { status = failed; attempts = (d.attempts + 1) % 2 ^ 32; last_error = error })
          refl in
      (
        λ early. ap (λ r. is_some r.1) (claim_row-shut later id row ds key (wait.0 early)),
        λ late. ap (λ r. is_some r.1) (claim_row-open later id row ds key (wait.1 late)),
      )

  tail-Retried :
      (d : SubscriberDelivery) (rows : List SubscriberDelivery)
      → (d.id == id) ≡ false
      → Retried now later id rows
      → Retried now later id (d ∷ rows)
  tail-Retried d rows apart h =
      let same : handed later id (d ∷ rows) ≡ handed later id rows =
        ap (λ r. is_some r.1) (claim_row-other later id d rows apart) in
      (λ early. same ∙ h.0 early, λ late. same ∙ h.1 late)

  mark_row-Retried :
      (ds rows : List SubscriberDelivery)
      → mark_row now id failed error ds ≡ some rows
      → Retried now later id rows
  unfolding mark_row
  mark_row-Retried [] rows h = cc
  mark_row-Retried (d ∷ ds) rows h = elim (Bool-cases (d.id == id)) [
    | inl y ↦
        let here = mark_row-here now id error d ds y in
        let same : failed_row now error d ∷ ds ≡ rows = some_eq (sym here ∙ h) in
        subst (Retried now later id) same (head-Retried d ds y)
    | inr n ↦ elim (Option-cases (mark_row now id failed error ds)) [
      | inl e ↦ let lost = mark_row-nowhere now id error d ds n e in cc
      | inr (rest, e) ↦
          let same : d ∷ rest ≡ rows =
            some_eq (sym (mark_row-later now id error d ds n rest e) ∙ h) in
          subst (Retried now later id) same (tail-Retried d rest n (mark_row-Retried ds rest e))
    ]
  ]

-- A delivery that is marked as failed is not handed out again in the half minute that follows, and is
-- handed out to a claim that comes an hour later or more, however often it has failed before.
pub mark_delivery-retry :
    (now early late : DateTime) (id : Uuid) (error : Option String) (m : MemoryStorage)
    → (mark_delivery now id failed error m).1 ≡ ok tt
    → early < now + 30 * nanos
    → now + 3600 * nanos ≤ late
    → (is_some (claim_delivery early id (mark_delivery now id failed error m).0).1 ≡ false)
      × (is_some (claim_delivery late id (mark_delivery now id failed error m).0).1 ≡ true)
unfolding mark_delivery claim_delivery
mark_delivery-retry now early late id error m done soon after =
    elim (Option-cases (mark_row now id failed error m.subscriber_deliveries)) [
      | inl e ↦
          let lost : (mark_delivery now id failed error m).1 ≡ err not_found =
            rw (mark_delivery, e) in
          cc
      | inr (rows, e) ↦
          let left : (mark_delivery now id failed error m).0.subscriber_deliveries ≡ rows =
            rw (mark_delivery, e) in
          let retried = λ (t : DateTime).
            subst (Retried now t id) (sym left)
              (mark_row-Retried now t id error m.subscriber_deliveries rows e) in
          ((retried early).0 soon, (retried late).1 after)
    ]
