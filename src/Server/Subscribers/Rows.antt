-- ===== src/Server/Subscribers/Rows.antt =====
-- What one turn of `sweep` of bin/status-server/src/subscriber_dispatch.rs does to the rows of the
-- queue.
use statuspage.Base.{
  ◌+◌, ◌%◌, ◌^◌, ◌≡◌, ◌≢◌, refl, sym, ap, ◌∙◌, arith, true, false, ◌==◌, Option, none, some, String,
  List, [], ◌∷◌, map, Bool-cases, inl, inr, if◌then◌else◌, All, AllPairs,
}
use mathlib.Core.Path.{subst}
use statuspage.Domain.Time.{Uuid, DateTime}
use statuspage.Domain.Status.{DeliveryStatus, claimed}
use statuspage.Domain.Delivery.{SubscriberDelivery}
use statuspage.Storage.Memory.{MemoryStorage}
use statuspage.Storage.Deliveries.{
  claimable, claim_row, claim_delivery, settle, mark_row, mark_delivery,
}
use statuspage.Storage.Deliveries.Claims.{claim_row-open, claim_row-shut, claim_row-other}
use statuspage.Server.Subscribers.{Clock, outcome_status, attempt_claimed, attempt_delivery}
use statuspage.Server.Subscribers.Message.{Outbound, dispatch_delivery}

-- Every id occurs once.
abbrev pub HasIds : List SubscriberDelivery → Type 0
HasIds = AllPairs (λ e d. e.id ≢ d.id)

-- The row that is written when the status is marked.
unfoldable pub marked_row :
    DateTime → DeliveryStatus → Option String → SubscriberDelivery → SubscriberDelivery
marked_row now status error d =
    settle now status
      (record d { status = status; attempts = (d.attempts + 1) % 2 ^ 32; last_error = error })

-- A claimed row after its message went out, or did not.
unfoldable pub sent_row : Clock → Outbound → String → SubscriberDelivery → SubscriberDelivery
unfolding marked_row
sent_row clock out base d =
    let error = dispatch_delivery out base (record d { status = claimed }) in
    marked_row (clock.marked_at d.id) (outcome_status (record d { status = claimed }) error) error d

-- One attempt at a row, if it is free when it is claimed.
unfoldable pub attempt_row : Clock → Outbound → String → SubscriberDelivery → SubscriberDelivery
unfolding sent_row
attempt_row clock out base d =
    if claimable (clock.claimed_at d.id) d then sent_row clock out base d else d

-- The function at the row with the id.
unfoldable pub at_id :
    (SubscriberDelivery → SubscriberDelivery)
    → Uuid
    → List SubscriberDelivery
    → List SubscriberDelivery
at_id f id = map (λ d. if d.id == id then f d else d)

at_id-absent :
    (f : SubscriberDelivery → SubscriberDelivery) (id : Uuid) (ds : List SubscriberDelivery)
    → All (λ e. e.id ≢ id) ds
    → at_id f id ds ≡ ds
unfolding at_id
at_id-absent f id [] h = refl
at_id-absent f id (d ∷ ds) h =
    let other : (d.id == id) ≡ false = let differs = h.0 in ground arith in
    rw (other, at_id-absent f id ds h.1) refl

module _ (f : SubscriberDelivery → SubscriberDelivery) (id : Uuid) (d : SubscriberDelivery)
    (ds : List SubscriberDelivery) where
  at_id-head : (d.id == id) ≡ true → at_id f id (d ∷ ds) ≡ f d ∷ at_id f id ds
  unfolding at_id
  at_id-head here = rw here refl

  at_id-tail : (d.id == id) ≡ false → at_id f id (d ∷ ds) ≡ d ∷ at_id f id ds
  unfolding at_id
  at_id-tail apart = rw apart refl

attempt_row-open :
    (clock : Clock) (out : Outbound) (base : String) (d : SubscriberDelivery)
    → claimable (clock.claimed_at d.id) d ≡ true
    → attempt_row clock out base d ≡ sent_row clock out base d
unfolding attempt_row
attempt_row-open clock out base d free = rw free refl

attempt_row-shut :
    (clock : Clock) (out : Outbound) (base : String) (d : SubscriberDelivery)
    → claimable (clock.claimed_at d.id) d ≡ false
    → attempt_row clock out base d ≡ d
unfolding attempt_row
attempt_row-shut clock out base d busy = rw busy refl

module _ (clock : Clock) (out : Outbound) (base : String) (id : Uuid) where
  abbrev written : SubscriberDelivery → List SubscriberDelivery → Option (List SubscriberDelivery)
  written c rows =
      let error = dispatch_delivery out base c in
      mark_row (clock.marked_at id) id (outcome_status c error) error rows

  abbrev or_else_kept :
      List SubscriberDelivery → Option (List SubscriberDelivery) → List SubscriberDelivery
  or_else_kept rows none = rows
  or_else_kept rows (some after) = after

  -- The rows that the claim and the mark leave.
  after_mark : List SubscriberDelivery × Option SubscriberDelivery → List SubscriberDelivery
  after_mark (rows, none) = rows
  after_mark (rows, some c) = or_else_kept rows (written c rows)

  mark_row-other :
      (t : DateTime) (status : DeliveryStatus) (error : Option String) (d : SubscriberDelivery)
      (ds : List SubscriberDelivery)
      → (d.id == id) ≡ false
      → or_else_kept (d ∷ ds) (mark_row t id status error (d ∷ ds))
        ≡ d ∷ or_else_kept ds (mark_row t id status error ds)
  unfolding mark_row
  mark_row-other t status error d ds apart = ground (arith, apart)

  after_mark-other :
      (d : SubscriberDelivery) (rows : List SubscriberDelivery) (found : Option SubscriberDelivery)
      → (d.id == id) ≡ false
      → after_mark (d ∷ rows, found) ≡ d ∷ after_mark (rows, found)
  unfolding after_mark
  after_mark-other d rows none apart = refl
  after_mark-other d rows (some c) apart =
      let error = dispatch_delivery out base c in
      mark_row-other (clock.marked_at id) (outcome_status c error) error d rows apart

  after_mark-head :
      (d : SubscriberDelivery) (ds : List SubscriberDelivery)
      → d.id ≡ id
      → after_mark (record d { status = claimed } ∷ ds, some (record d { status = claimed }))
        ≡ sent_row clock out base d ∷ ds
  unfolding after_mark mark_row sent_row
  after_mark-head d ds same = let key : (d.id == id) ≡ true = ground arith in rw (key, same) refl

  after_mark-claim :
      (ds : List SubscriberDelivery)
      → HasIds ds
      → after_mark (claim_row (clock.claimed_at id) id ds)
        ≡ at_id (attempt_row clock out base) id ds
  unfolding at_id claim_row after_mark
  after_mark-claim [] ids = refl
  after_mark-claim (d ∷ ds) ids = elim (Bool-cases (d.id == id)) [
    | inl y ↦
        let same : d.id ≡ id = ground arith in
        let f = attempt_row clock out base in
        let others : at_id f id ds ≡ ds =
          at_id-absent f id ds (subst (λ k. All (λ e. e.id ≢ k) ds) same ids.0) in
        let goal_side : at_id f id (d ∷ ds) ≡ f d ∷ ds =
          at_id-head f id d ds y ∙ ap (λ r. f d ∷ r) others in
        elim (Bool-cases (claimable (clock.claimed_at id) d)) [
          | inl c ↦
              let free : claimable (clock.claimed_at d.id) d ≡ true =
                subst (λ k. claimable (clock.claimed_at k) d ≡ true) (sym same) c in
              ap after_mark (claim_row-open (clock.claimed_at id) id d ds y c)
              ∙ (after_mark-head d ds same
                  ∙ (ap (λ r. r ∷ ds) (sym (attempt_row-open clock out base d free))
                      ∙ sym goal_side))
          | inr c ↦
              let busy : claimable (clock.claimed_at d.id) d ≡ false =
                subst (λ k. claimable (clock.claimed_at k) d ≡ false) (sym same) c in
              ap after_mark (claim_row-shut (clock.claimed_at id) id d ds y c)
              ∙ (ap (λ r. r ∷ ds) (sym (attempt_row-shut clock out base d busy)) ∙ sym goal_side)
        ]
    | inr n ↦
        let claim = claim_row (clock.claimed_at id) id ds in
        ap after_mark (claim_row-other (clock.claimed_at id) id d ds n)
        ∙ (after_mark-other d claim.0 claim.1 n
            ∙ (ap (λ r. d ∷ r) (after_mark-claim ds ids.1)
                ∙ sym (at_id-tail (attempt_row clock out base) id d ds n)))
  ]

  attempt_claimed-after_mark :
      (m : MemoryStorage) (rows : List SubscriberDelivery) (found : Option SubscriberDelivery)
      → attempt_claimed clock out base id (record m { subscriber_deliveries = rows }, found)
        ≡ record m { subscriber_deliveries = after_mark (rows, found) }
  unfolding attempt_claimed after_mark mark_delivery
  attempt_claimed-after_mark m rows none = refl
  attempt_claimed-after_mark m rows (some c) = ground arith

  -- One turn of the loop changes the row with the id, as one attempt does, and nothing else.
  pub attempt_delivery-rows :
      (m : MemoryStorage)
      → HasIds m.subscriber_deliveries
      → attempt_delivery clock out base id m ≡ record m {
        subscriber_deliveries = at_id (attempt_row clock out base) id m.subscriber_deliveries;
      }
  unfolding attempt_delivery claim_delivery
  attempt_delivery-rows m ids =
      let claim = claim_row (clock.claimed_at id) id m.subscriber_deliveries in
      attempt_claimed-after_mark m claim.0 claim.1
      ∙ ap (λ rows. record m { subscriber_deliveries = rows })
          (after_mark-claim m.subscriber_deliveries ids)
