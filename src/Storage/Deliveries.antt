-- ===== src/Storage/Deliveries.antt =====
-- The subscriber deliveries of crates/storage/src/memory.rs: the queue that the dispatcher works off.
pub mod Claims
pub mod Retry
use statuspage.Base.{
  ℕ, ◌+◌, ◌-◌, ◌*◌, ◌^◌, ◌%◌, min, Bool, true, false, not, ◌&&◌, ◌==◌, Option, none, some,
  unwrap_or, String, List, [], ◌∷◌, ◌++◌, ltb, leb, if◌then◌else◌, filter, take, length,
}
use statuspage.Base.Sort.{sort_by}
use statuspage.Domain.Time.{Uuid, DateTime, nanos}
use statuspage.Domain.Status.{
  DeliveryStatus, pending, claimed, sent, failed, dead_letter, DeliveryReason,
}
use statuspage.Domain.Delivery.{SubscriberDelivery, SubscriberChannel}
use statuspage.Storage.Memory.{MemoryStorage, Result, ok, err, not_found}

abbrev pub due_by : DateTime → Option DateTime → Bool
due_by now none = false
due_by now (some t) = leb t now

-- Pending, or failed and due for its retry.
abbrev pub claimable_in : DeliveryStatus → Option DateTime → DateTime → Bool
claimable_in pending next now = true
claimable_in failed next now = due_by now next
claimable_in _ next now = false

unfoldable pub claimable : DateTime → SubscriberDelivery → Bool
claimable now d = claimable_in d.status d.next_attempt_at now

unfoldable pub list_pending_deliveries : DateTime → ℕ → MemoryStorage → List SubscriberDelivery
list_pending_deliveries now limit m = take limit (
    sort_by (λ a b. ltb a.created_at b.created_at) (filter (claimable now) m.subscriber_deliveries))

-- The loop of `claim_delivery`: the first row with the id decides.
unfoldable pub claim_row :
    DateTime → Uuid → List SubscriberDelivery → List SubscriberDelivery × Option SubscriberDelivery
unfolding claimable
claim_row now id [] = ([], none)
claim_row now id (d ∷ ds) =
    let (rest, found) = claim_row now id ds in
    if d.id == id
    then (if claimable now d
        then (record d { status = claimed } ∷ ds, some (record d { status = claimed }))
        else (d ∷ ds, none))
    else (d ∷ rest, found)

unfoldable pub claim_delivery :
    DateTime → Uuid → MemoryStorage → MemoryStorage × Option SubscriberDelivery
unfolding claim_row
claim_delivery now id m =
    let (rows, found) = claim_row now id m.subscriber_deliveries in
    (record m { subscriber_deliveries = rows }, found)

-- 30 s * 2^attempts, at most an hour.
unfoldable pub backoff_secs : ℕ → ℕ
backoff_secs attempts = min (30 * 2 ^ min attempts 7) 3600

-- The fields that depend on the new status; `attempts`, a `u32`, is counted already.
unfoldable pub settle : DateTime → DeliveryStatus → SubscriberDelivery → SubscriberDelivery
unfolding backoff_secs
settle now sent d = record d { sent_at = some now; next_attempt_at = none }
settle now dead_letter d = record d { next_attempt_at = none }
settle now failed d = record d { next_attempt_at = some (now + backoff_secs d.attempts * nanos) }
settle now pending d = d
settle now claimed d = d

unfoldable pub mark_row :
    DateTime
    → Uuid
    → DeliveryStatus
    → Option String
    → List SubscriberDelivery
    → Option (List SubscriberDelivery)
unfolding settle
mark_row now id status error [] = none
mark_row now id status error (d ∷ ds) =
    let rest : Option (List SubscriberDelivery) = elim (mark_row now id status error ds) [
      | none ↦ none
      | some rows ↦ some (d ∷ rows)
    ] in
    if d.id == id
    then some (
        settle now status
          (record d { status = status; attempts = (d.attempts + 1) % 2 ^ 32; last_error = error })
        ∷ ds)
    else rest

unfoldable pub mark_delivery :
    DateTime
    → Uuid
    → DeliveryStatus
    → Option String
    → MemoryStorage
    → MemoryStorage × Result (Unit {0})
unfolding mark_row
mark_delivery now id status error m = elim (mark_row now id status error m.subscriber_deliveries) [
  | none ↦ (m, err not_found)
  | some rows ↦ (record m { subscriber_deliveries = rows }, ok tt)
]

-- The id that `Uuid::now_v7()` draws is an argument.
unfoldable pub enqueue_delivery :
    DateTime
    → Uuid
    → Uuid
    → Uuid
    → SubscriberChannel
    → String
    → String
    → DeliveryReason
    → MemoryStorage
    → MemoryStorage
enqueue_delivery now id subscriber_id status_page_id channel target payload reason m = record m {
  subscriber_deliveries =
      m.subscriber_deliveries
      ++ record {
        id = id;
        subscriber_id = subscriber_id;
        status_page_id = status_page_id;
        channel = channel;
        target = target;
        payload = payload;
        reason = reason;
        status = pending;
        attempts = 0;
        last_error = none;
        created_at = now;
        sent_at = none;
        next_attempt_at = some now;
      }
        ∷ [];
}

abbrev pub is_finished : DeliveryStatus → Bool
is_finished sent = true
is_finished dead_letter = true
is_finished _ = false

unfoldable pub delete_old_deliveries : DateTime → MemoryStorage → MemoryStorage × ℕ
delete_old_deliveries older_than m =
    let kept =
      filter (λ d. not (is_finished d.status && ltb (unwrap_or d.sent_at d.created_at) older_than))
        m.subscriber_deliveries in
    (record m { subscriber_deliveries = kept }, length m.subscriber_deliveries - length kept)
