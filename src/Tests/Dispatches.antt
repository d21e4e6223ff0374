-- ===== src/Tests/Dispatches.antt =====
-- The theorems on notices and deliveries at concrete inputs.
use statuspage.Base.{
  Among, arith, ◌*◌, ◌≤◌, ◌≡◌, refl, true, false, none, some, is_some, [], ◌∷◌, All,
}
use statuspage.Base.Dict.{get}
use statuspage.Domain.Time.{Uuid, nanos}
use statuspage.Domain.Status.{incident_opened, failed}
use statuspage.Domain.Channel.{NotificationChannel}
use statuspage.Storage.Results.{get_target}
use statuspage.Storage.Deliveries.{claim_delivery, mark_delivery, mark_row}
use statuspage.Storage.Deliveries.Claims.{successes, claims-once}
use statuspage.Storage.Deliveries.Retry.{mark_delivery-retry}
use statuspage.Server.Dispatch.{dispatch_to_target_channels}
use statuspage.Server.Dispatch.Notified.{notice, IsWanted, dispatch-Notified}
use statuspage.Tests.Data.{silenced_site, queue_site, ongoing_outage, shop}

claims-once_example : successes 90 ((10, 90) ∷ (11, 91) ∷ (12, 90) ∷ []) queue_site ≤ 1
claims-once_example = claims-once 90 ((10, 90) ∷ (11, 91) ∷ (12, 90) ∷ []) queue_site

mark_delivery-retry_example :
    (is_some (claim_delivery 20 90 (mark_delivery 10 90 failed none queue_site).0).1 ≡ false)
    × (is_some (claim_delivery (3601 * nanos) 90 (mark_delivery 10 90 failed none queue_site).0).1
        ≡ true)
unfolding mark_delivery mark_row
mark_delivery-retry_example =
    mark_delivery-retry 10 20 (3601 * nanos) 90 none queue_site refl (omega arith) (omega arith)

dispatch-Notified_example :
    All
      (λ n.
        (b : Uuid) × (c : NotificationChannel) × Among b (3 ∷ 4 ∷ [])
        × (get b silenced_site.notification_channels ≡ some c)
        × (n ≡ notice ongoing_outage incident_opened c)
        × IsWanted 95 7 incident_opened silenced_site c)
      (dispatch_to_target_channels 95 ongoing_outage incident_opened silenced_site)
    × ((b : Uuid) (c : NotificationChannel)
        → Among b (3 ∷ 4 ∷ [])
        → get b silenced_site.notification_channels ≡ some c
        → IsWanted 95 7 incident_opened silenced_site c
        → Among
            (notice ongoing_outage incident_opened c)
            (dispatch_to_target_channels 95 ongoing_outage incident_opened silenced_site))
unfolding get_target get
dispatch-Notified_example =
    dispatch-Notified 95 ongoing_outage incident_opened silenced_site shop refl refl
