-- ===== src/Server/Subscribers/Listed.antt =====
-- What a sweep of bin/status-server/src/subscriber_dispatch.rs writes, row by row, in terms of the row and
-- its message alone.
use statuspage.Base.{
  ◌≤◌, ◌+◌, ◌*◌, ◌^◌, ◌%◌, min, leb, ◌&&◌, false, Option, none, some, ◌≡◌, refl, ap, ◌∙◌, Bool,
  true, String, List, [], ◌∷◌, map, filter, length, Bool-cases, inl, inr, if◌then◌else◌,
}
use statuspage.Domain.Time.{DateTime, nanos}
use statuspage.Domain.Status.{DeliveryStatus, pending, claimed, sent, failed, dead_letter}
use statuspage.Domain.Delivery.{SubscriberDelivery}
use statuspage.Storage.Memory.{MemoryStorage}
use statuspage.Storage.Deliveries.{claimable, claimable_in, due_by, settle, backoff_secs}
use statuspage.Server.Subscribers.{Clock, sweep, batch_limit, outcome_status}
use statuspage.Server.Subscribers.Message.{Outbound, dispatch_delivery}
use statuspage.Server.Subscribers.Rows.{HasIds, attempt_row, marked_row, sent_row}
use statuspage.Server.Subscribers.Ready.{sweep_row, sweep-rows}

-- A row waits at a time if it is pending, or failed with a retry time that has come.
abbrev has_come : DateTime → Option DateTime → Bool
has_come now none = false
has_come now (some t) = leb t now

abbrev pub waits : DateTime → DeliveryStatus → Option DateTime → Bool
waits now pending next = true
waits now failed next = has_come now next
waits now claimed next = false
waits now sent next = false
waits now dead_letter next = false

-- The row after its message went out, or failed: with one attempt more, sent, or to be retried after a
-- delay, or given up where six attempts were counted before.
abbrev pub outcome : DateTime → Option String → SubscriberDelivery → SubscriberDelivery
outcome at none d = record d {
  status = sent;
  attempts = (d.attempts + 1) % 2 ^ 32;
  last_error = none;
  sent_at = some at;
  next_attempt_at = none;
}
outcome at (some error) d =
    if leb 6 d.attempts
    then record d {
      status = dead_letter;
      attempts = (d.attempts + 1) % 2 ^ 32;
      last_error = some error;
      next_attempt_at = none;
    }
    else record d {
      status = failed;
      attempts = (d.attempts + 1) % 2 ^ 32;
      last_error = some error;
      next_attempt_at = some (at + min (30 * 2 ^ min ((d.attempts + 1) % 2 ^ 32) 7) 3600 * nanos);
    }

-- What a sweep does to one row: an attempt, if the row waits when it is listed and when it is claimed.
abbrev pub swept : Clock → Outbound → String → SubscriberDelivery → SubscriberDelivery
swept clock out base d =
    if waits clock.listed_at d.status d.next_attempt_at
      && waits (clock.claimed_at d.id) d.status d.next_attempt_at
    then outcome (clock.marked_at d.id) (dispatch_delivery out base (record d { status = claimed }))
        d
    else d

waits-claimable :
    (now : DateTime) (d : SubscriberDelivery)
    → claimable now d ≡ waits now d.status d.next_attempt_at
unfolding claimable
waits-claimable now d = by_status d.status d.next_attempt_at
  where
    by_time : (next : Option DateTime) → due_by now next ≡ has_come now next
    by_time none = refl
    by_time (some t) = refl

    by_status :
        (s : DeliveryStatus) (next : Option DateTime) → claimable_in s next now ≡ waits now s next
    by_status pending next = refl
    by_status failed next = by_time next
    by_status claimed next = refl
    by_status sent next = refl
    by_status dead_letter next = refl

-- What the row is marked with.
marked_row-outcome :
    (at : DateTime) (error : Option String) (d : SubscriberDelivery)
    → marked_row at (outcome_status (record d { status = claimed }) error) error d
      ≡ outcome at error d
unfolding marked_row outcome_status settle backoff_secs
marked_row-outcome at none d = refl
marked_row-outcome at (some error) d = elim (Bool-cases (leb 6 d.attempts)) [
  | inl y ↦ rw (y, marked_row, settle)
  | inr n ↦ rw (n, marked_row, settle)
]

sweep_row-swept :
    (clock : Clock) (out : Outbound) (base : String) (d : SubscriberDelivery)
    → sweep_row clock out base d ≡ swept clock out base d
unfolding sweep_row attempt_row sent_row
sweep_row-swept clock out base d =
    let error = dispatch_delivery out base (record d { status = claimed }) in
    rw
      (
        waits-claimable clock.listed_at d,
        waits-claimable (clock.claimed_at d.id) d,
        marked_row-outcome (clock.marked_at d.id) error d,
      )
      (both (waits clock.listed_at d.status d.next_attempt_at)
        (waits (clock.claimed_at d.id) d.status d.next_attempt_at)
        (outcome (clock.marked_at d.id) error d))
  where
    both :
        (a b : Bool) (x : SubscriberDelivery)
        → (if a then (if b then x else d) else d) ≡ (if a && b then x else d)
    both true b x = refl
    both false b x = refl

-- Where the deliveries' ids differ and at most a batch of them is free, a sweep leaves each row as one
-- attempt would by itself: a row that is pending, or failed and due, both when it is listed and when it
-- is claimed, gets the status, the count, the error and the times of the outcome of its message, and no
-- other row or part of the storage changes.
pub sweep-each :
    (clock : Clock) (out : Outbound) (base : String) (m : MemoryStorage)
    → HasIds m.subscriber_deliveries
    → length (filter (claimable clock.listed_at) m.subscriber_deliveries) ≤ batch_limit
    → sweep clock out base m
      ≡ record m { subscriber_deliveries = map (swept clock out base) m.subscriber_deliveries }
sweep-each clock out base m ids few =
    sweep-rows clock out base m ids few
    ∙ ap (λ rows. record m { subscriber_deliveries = rows }) (all_rows m.subscriber_deliveries)
  where
    all_rows :
        (rows : List SubscriberDelivery)
        → map (sweep_row clock out base) rows ≡ map (swept clock out base) rows
    all_rows [] = refl
    all_rows (d ∷ ds) = cc (sweep_row-swept clock out base d, all_rows ds)
