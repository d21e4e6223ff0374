-- ===== src/Server/Subscribers/Retries.antt =====
-- One row of the queue, sweep after sweep of bin/status-server/src/subscriber_dispatch.rs, while its
-- message fails.
use statuspage.Base.{
  ℕ, suc, ◌+◌, ◌*◌, ◌%◌, ◌^◌, ◌≤◌, ◌<◌, ◌≡◌, ◌≢◌, refl, sym, ap, ◌∙◌, arith, true, false, leb,
  Option, some, String, List, [], ◌∷◌, length, Bool-cases, inl, inr, if◌then◌else◌, All, All-map,
}
use mathlib.Core.Path.{subst}
use statuspage.Domain.Time.{Uuid, DateTime, nanos}
use statuspage.Domain.Status.{DeliveryStatus, claimed, failed, dead_letter}
use statuspage.Domain.Delivery.{SubscriberDelivery, SubscriberChannel, email, webhook, slack, sms}
use statuspage.Storage.Deliveries.{claimable, settle}
use statuspage.Storage.Deliveries.Retry.{failed_row-claimable}
use statuspage.Server.Subscribers.{Clock, max_attempts, outcome_status}
use statuspage.Server.Subscribers.Message.{
  Outbound, dispatch_delivery, dispatch_over, incident_email,
}
use statuspage.Server.Subscribers.Rows.{marked_row, sent_row, attempt_row}
use statuspage.Server.Subscribers.Each.{settle-id}
use statuspage.Server.Subscribers.Ready.{sweep_row}

module _ (out : Outbound) (base : String) (d : SubscriberDelivery) where
  -- The message depends neither on the status nor on how often it was tried.
  dispatch_delivery-retried :
      (now : DateTime) (error : Option String)
      → dispatch_delivery out base (marked_row now failed error d) ≡ dispatch_delivery out base d
  unfolding dispatch_delivery dispatch_over incident_email marked_row settle
  dispatch_delivery-retried now error = over d.channel
    where
      over :
          (c : SubscriberChannel)
          → dispatch_over c out base (marked_row now failed error d) ≡ dispatch_over c out base d
      over email = refl
      over webhook = refl
      over slack = refl
      over sms = refl

  dispatch_delivery-claimed :
      dispatch_delivery out base (record d { status = claimed }) ≡ dispatch_delivery out base d
  unfolding dispatch_delivery dispatch_over incident_email
  dispatch_delivery-claimed = over d.channel
    where
      over :
          (c : SubscriberChannel)
          → dispatch_over c out base (record d { status = claimed }) ≡ dispatch_over c out base d
      over email = refl
      over webhook = refl
      over slack = refl
      over sms = refl

-- A sweep, and what the network answers during it.
abbrev pub Round : Type 0
Round = Clock × Outbound

-- Each round reads its clock in order, at least an hour after the one before marked the delivery.
abbrev pub Spaced : Uuid → DateTime → List Round → Type 0
Spaced id from [] = Unit
Spaced id from ((clock, out) ∷ rounds) =
    (from ≤ clock.listed_at)
    × (clock.listed_at ≤ clock.claimed_at id)
    × Spaced id (clock.marked_at id + 3600 * nanos) rounds

-- Each round's answer to the delivery's message is an error.
abbrev pub Fails : String → SubscriberDelivery → List Round → Type 0
Fails base d rounds =
    All (λ r. (error : String) × (dispatch_delivery r.1 base d ≡ some error)) rounds

unfoldable pub row_rounds : String → List Round → SubscriberDelivery → SubscriberDelivery
row_rounds base [] d = d
row_rounds base ((clock, out) ∷ rounds) d = row_rounds base rounds (sweep_row clock out base d)

-- Tried `n` times in vain, and free from the given time on.
abbrev pub Waits : ℕ → DateTime → SubscriberDelivery → Type 0
Waits n from d = (d.attempts ≡ n) × ((t : DateTime) → from ≤ t → claimable t d ≡ true)

-- The status that an error leads to.
after_error : ℕ → DeliveryStatus
after_error attempts = if leb max_attempts attempts then dead_letter else failed

after_error-last : after_error max_attempts ≡ dead_letter
unfolding after_error
after_error-last = refl

after_error-early : (n : ℕ) → n < max_attempts → after_error n ≡ failed
unfolding after_error
after_error-early n h = ground arith

module _ (clock : Clock) (out : Outbound) (base : String) (d : SubscriberDelivery) (error : String)
    (bad : dispatch_delivery out base d ≡ some error) where
  sweep_row-fails :
      claimable clock.listed_at d ≡ true
      → claimable (clock.claimed_at d.id) d ≡ true
      → sweep_row clock out base d
        ≡ marked_row (clock.marked_at d.id) (after_error d.attempts) (some error) d
  unfolding sweep_row attempt_row sent_row after_error outcome_status marked_row
  sweep_row-fails listed free = rw (listed, free, dispatch_delivery-claimed out base d ∙ bad) refl

marked_row-id :
    (now : DateTime) (status : DeliveryStatus) (error : Option String) (d : SubscriberDelivery)
    → (marked_row now status error d).id ≡ d.id
unfolding marked_row
marked_row-id now status error d =
    settle-id now status
      (record d { status = status; attempts = (d.attempts + 1) % 2 ^ 32; last_error = error })

-- A further failure before the last.
marked_row-Waits :
    (n : ℕ) (now : DateTime) (error : Option String) (d : SubscriberDelivery)
    → d.attempts ≡ n
    → n < max_attempts
    → Waits (suc n) (now + 3600 * nanos) (marked_row now failed error d)
unfolding marked_row settle
marked_row-Waits n now error d tried few = (
  omega arith,
  λ t late.
      (failed_row-claimable now t
          (record d { status = failed; attempts = (d.attempts + 1) % 2 ^ 32; last_error = error })
          refl).1
        late,
)

abbrev pub IsParked : SubscriberDelivery → Type 0
IsParked d = (d.status ≡ dead_letter) × (d.attempts ≡ suc max_attempts)

marked_row-IsParked :
    (now : DateTime) (error : Option String) (d : SubscriberDelivery)
    → d.attempts ≡ max_attempts
    → IsParked (marked_row now dead_letter error d)
unfolding marked_row settle
marked_row-IsParked now error d tried = (refl, omega arith)

pub dead-claimable :
    (t : DateTime) (d : SubscriberDelivery) → d.status ≡ dead_letter → claimable t d ≡ false
unfolding claimable
dead-claimable t d h = rw h refl

row_rounds-dead :
    (base : String) (rounds : List Round) (d : SubscriberDelivery)
    → d.status ≡ dead_letter
    → row_rounds base rounds d ≡ d
unfolding row_rounds sweep_row
row_rounds-dead base [] d h = refl
row_rounds-dead base ((clock, out) ∷ rounds) d h =
    rw (dead-claimable clock.listed_at d h, row_rounds-dead base rounds d h) refl

-- How a delivery stands that was tried `n` times: parked after the seventh, waiting before.
abbrev pub Stands : Uuid → ℕ → SubscriberDelivery → Type 0
Stands id n r =
    (r.id ≡ id)
    × (max_attempts < n → IsParked r)
    × (n ≤ max_attempts → (r.attempts ≡ n) × (r.status ≢ dead_letter))

Waits-Stands :
    (n : ℕ) (from : DateTime) (d : SubscriberDelivery)
    → n ≤ max_attempts
    → Waits n from d
    → Stands d.id n d
Waits-Stands n from d few w =
    let free = w.1 from (omega arith) in
    (
      refl,
      λ many. absurd (omega arith),
      λ _. (w.0, λ dead. let held = dead-claimable from d dead in absurd (cc)),
    )

Fails-retried :
    (base : String) (now : DateTime) (error : Option String) (d : SubscriberDelivery)
    (rounds : List Round)
    → Fails base d rounds
    → Fails base (marked_row now failed error d) rounds
Fails-retried base now error d rounds =
    All-map (λ r. (e : String) × (dispatch_delivery r.1 base d ≡ some e))
      (λ r. (e : String) × (dispatch_delivery r.1 base (marked_row now failed error d) ≡ some e))
      (λ r h. (h.0, dispatch_delivery-retried r.1 base d now error ∙ h.1)) rounds

pub row_rounds-Stands :
    (base : String) (rounds : List Round) (n : ℕ) (from : DateTime) (d : SubscriberDelivery)
    → n ≤ max_attempts
    → Waits n from d
    → Spaced d.id from rounds
    → Fails base d rounds
    → Stands d.id (n + length rounds) (row_rounds base rounds d)
unfolding row_rounds
row_rounds-Stands base [] n from d few w spaced fails =
    subst (λ k. Stands d.id k d) (omega arith) (Waits-Stands n from d few w)
row_rounds-Stands base ((clock, out) ∷ rounds) n from d few w spaced fails =
    let now = clock.marked_at d.id in
    let (error, bad) = fails.0 in
    let swept : sweep_row clock out base d ≡ marked_row now (after_error n) (some error) d =
      sweep_row-fails clock out base d error bad (w.1 clock.listed_at spaced.0)
        (w.1 (clock.claimed_at d.id) (omega (arith, spaced.0, spaced.1)))
      ∙ ap (λ k. marked_row now (after_error k) (some error) d) w.0 in
    elim (Bool-cases (leb max_attempts n)) [
      | inl y ↦
          let last : n ≡ max_attempts = ground arith in
          let row = marked_row now dead_letter (some error) d in
          let parked : IsParked row = marked_row-IsParked now (some error) d (w.0 ∙ last) in
          let ends : row_rounds base rounds (sweep_row clock out base d) ≡ row =
            ap (row_rounds base rounds) (
              swept
              ∙ ap (λ s. marked_row now s (some error) d) (ap after_error last ∙ after_error-last))
            ∙ row_rounds-dead base rounds row parked.0 in
          let done : Stands d.id (n + suc (length rounds)) row = (
            marked_row-id now dead_letter (some error) d,
            λ _. parked,
            λ few. absurd (omega arith),
          ) in
          subst (Stands d.id (n + suc (length rounds))) (sym ends) done
      | inr k ↦
          let early : n < max_attempts = ground arith in
          let row = marked_row now failed (some error) d in
          let key : row.id ≡ d.id = marked_row-id now failed (some error) d in
          let waits = marked_row-Waits n now (some error) d w.0 early in
          let rest : Stands row.id (suc n + length rounds) (row_rounds base rounds row) =
            row_rounds-Stands base rounds (suc n) (now + 3600 * nanos) row (omega (arith, early))
              waits (subst (λ i. Spaced i (now + 3600 * nanos) rounds) (sym key) spaced.2)
              (Fails-retried base now (some error) d rounds fails.1) in
          let moved : Stands d.id (n + suc (length rounds)) (row_rounds base rounds row) =
            subst (λ i. Stands i (n + suc (length rounds)) (row_rounds base rounds row)) key
              (subst (λ k. Stands row.id k (row_rounds base rounds row)) (omega arith) rest) in
          let same : sweep_row clock out base d ≡ row =
            swept ∙ ap (λ s. marked_row now s (some error) d) (after_error-early n early) in
          subst (λ r. Stands d.id (n + suc (length rounds)) (row_rounds base rounds r)) (sym same)
            moved
    ]
