-- ===== src/Tests/Subscribers.antt =====
-- The theorems on the subscriber dispatcher at concrete inputs.
use statuspage.Base.{
  ℕ, ◌*◌, ◌≤◌, ◌<◌, ◌≡◌, ◌≢◌, refl, arith, some, List, [], ◌∷◌, map, filter, inl, inr, Among,
  String,
}
use statuspage.Domain.Time.{nanos}
use statuspage.Domain.Status.{dead_letter, claimed}
use statuspage.Domain.Delivery.{SubscriberDelivery}
use statuspage.Storage.Memory.{MemoryStorage}
use statuspage.Storage.Deliveries.{claimable}
use statuspage.Server.Subscribers.{Clock, sweep}
use statuspage.Server.Subscribers.Message.{
  Outbound, dispatch_delivery, parse_payload_for_email, trim_end_slashes,
}
use statuspage.Server.Subscribers.Listed.{swept, sweep-each}
use statuspage.Server.Subscribers.Retries.{Round, Spaced, Fails}
use statuspage.Server.Subscribers.Parked.{sweeps, sweeps-park, sweeps-lose_claimed}
use statuspage.Tests.Data.{queue_site, queued}

-- Every URL parses, and every call fails.
abbrev broken : Outbound
broken = record {
  uuid_text = λ id. "0";
  parse_url = λ target. inr target;
  send_email = λ mail. some "no route";
  post_text = λ url body. some "no route";
  post_json = λ url body. some "no route";
}

abbrev at_hour : ℕ → Clock
at_hour h = record {
  listed_at = h * 3600 * nanos;
  claimed_at = λ id. h * 3600 * nanos;
  marked_at = λ id. h * 3600 * nanos;
}

abbrev seven_hours : List Round
seven_hours =
    (at_hour 1, broken)
    ∷ (at_hour 2, broken)
    ∷ (at_hour 3, broken)
    ∷ (at_hour 4, broken)
    ∷ (at_hour 5, broken)
    ∷ (at_hour 6, broken)
    ∷ (at_hour 7, broken)
    ∷ []

titles :
    parse_payload_for_email (queued 90).reason "API is down\r\nsince noon"
    ≡ ("API is down", "investigating")
unfolding parse_payload_for_email
titles = refl

trimmed : trim_end_slashes "https://a/b//" ≡ "https://a/b"
unfolding trim_end_slashes
trimmed = refl

other_id : ◌≢◌ {A = ℕ} 91 90
other_id e = absurd (omega arith)

sweep-each_example : sweep (at_hour 1) broken "" queue_site ≡ record queue_site {
  subscriber_deliveries = map (swept (at_hour 1) broken "") queue_site.subscriber_deliveries;
}
unfolding filter claimable
sweep-each_example =
    sweep-each (at_hour 1) broken "" queue_site ((other_id, tt), (tt, tt)) (omega arith)

spaced : Spaced 90 0 seven_hours
spaced = ground arith

failing : Fails "" (queued 90) seven_hours
unfolding dispatch_delivery
failing =
    let bad : (error : String) × (dispatch_delivery broken "" (queued 90) ≡ some error) =
      ("no route", refl) in
    (bad, (bad, (bad, (bad, (bad, (bad, (bad, tt)))))))

sweeps-park_example :
    (r : SubscriberDelivery) × Among r (sweeps "" seven_hours queue_site).subscriber_deliveries
    × (r.id ≡ 90)
    × (7 ≤ 7 → (r.status ≡ dead_letter) × (r.attempts ≡ 7))
    × (7 < 7 → (r.status ≢ dead_letter) × (r.attempts ≡ 7))
sweeps-park_example =
    sweeps-park "" seven_hours queue_site (queued 90) ((other_id, tt), (tt, tt)) (omega arith)
      (inl refl) refl refl spaced failing

abbrev stuck_site : MemoryStorage
stuck_site = record queue_site {
  subscriber_deliveries = record (queued 90) { status = claimed } ∷ [];
}

sweeps-lose_claimed_example :
    Among
      (record (queued 90) { status = claimed })
      (sweeps "" seven_hours stuck_site).subscriber_deliveries
sweeps-lose_claimed_example =
    sweeps-lose_claimed "" seven_hours stuck_site (record (queued 90) { status = claimed }) (tt, tt)
      (omega arith) (inl refl) refl
