-- ===== src/Server/Subscribers.antt =====
-- The subscriber dispatcher, which works the delivery queue off: bin/status-server/src/subscriber_dispatch.rs,
-- with the mail of crates/common/src/email/trait_def.rs. What goes over the wire is a parameter.
pub mod Message
pub mod Rows
pub mod Each
pub mod Ready
pub mod Listed
pub mod Retries
pub mod Parked
use statuspage.Base.{ℕ, Option, none, some, String, List, [], ◌∷◌, leb, if◌then◌else◌}
use statuspage.Domain.Time.{Uuid, DateTime}
use statuspage.Domain.Status.{DeliveryStatus, sent, failed, dead_letter}
use statuspage.Domain.Delivery.{SubscriberDelivery}
use statuspage.Storage.Memory.{MemoryStorage}
use statuspage.Storage.Deliveries.{list_pending_deliveries, claim_delivery, mark_delivery}
use statuspage.Server.Subscribers.Message.{Outbound, dispatch_delivery}

abbrev pub batch_limit : ℕ
batch_limit = 200

abbrev pub max_attempts : ℕ
max_attempts = 6

-- What a sweep reads from the clock: when it lists the deliveries, and when it claims and marks each.
pub record Clock : Type 0 where
  pub listed_at : DateTime
  pub claimed_at : Uuid → DateTime
  pub marked_at : Uuid → DateTime

-- The new status of a delivery whose message ended with this error, if any.
unfoldable pub outcome_status : SubscriberDelivery → Option String → DeliveryStatus
outcome_status claimed none = sent
outcome_status claimed (some error) =
    if leb max_attempts claimed.attempts then dead_letter else failed

-- An error of `mark_delivery` is only logged.
unfoldable pub attempt_claimed :
    Clock → Outbound → String → Uuid → MemoryStorage × Option SubscriberDelivery → MemoryStorage
unfolding outcome_status
attempt_claimed clock out base id (m, none) = m
attempt_claimed clock out base id (m, some claimed) =
    let error = dispatch_delivery out base claimed in
    (mark_delivery (clock.marked_at id) id (outcome_status claimed error) error m).0

-- One turn of the loop of `sweep`.
unfoldable pub attempt_delivery : Clock → Outbound → String → Uuid → MemoryStorage → MemoryStorage
unfolding attempt_claimed
attempt_delivery clock out base id m =
    attempt_claimed clock out base id (claim_delivery (clock.claimed_at id) id m)

unfoldable pub attempt_all :
    Clock → Outbound → String → List SubscriberDelivery → MemoryStorage → MemoryStorage
unfolding attempt_delivery
attempt_all clock out base [] m = m
attempt_all clock out base (d ∷ ds) m =
    attempt_all clock out base ds (attempt_delivery clock out base d.id m)

unfoldable pub sweep : Clock → Outbound → String → MemoryStorage → MemoryStorage
unfolding attempt_all
sweep clock out base m =
    attempt_all clock out base (list_pending_deliveries clock.listed_at batch_limit m) m
