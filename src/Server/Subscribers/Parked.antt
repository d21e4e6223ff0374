-- ===== src/Server/Subscribers/Parked.antt =====
-- What becomes of a delivery that is never sent, sweep after sweep of
-- bin/status-server/src/subscriber_dispatch.rs.
use statuspage.Base.{
  ◌≤◌, ◌<◌, ◌≡◌, ◌≢◌, refl, sym, ap, ◌∙◌, arith, false, String, List, [], ◌∷◌, map, length,
  length-filter-le, Bool-cases, inl, inr, All, Among,
}
use mathlib.Core.Path.{subst}
use statuspage.Domain.Time.{Uuid}
use statuspage.Domain.Status.{pending, claimed, dead_letter}
use statuspage.Domain.Delivery.{SubscriberDelivery}
use statuspage.Storage.Memory.{MemoryStorage}
use statuspage.Storage.Deliveries.{claimable}
use statuspage.Server.Subscribers.{Clock, batch_limit, sweep}
use statuspage.Server.Subscribers.Message.{Outbound}
use statuspage.Server.Subscribers.Rows.{HasIds}
use statuspage.Server.Subscribers.Each.{step-id}
use statuspage.Server.Subscribers.Ready.{sweep_row, sweep-rows}
use statuspage.Server.Subscribers.Retries.{
  Round, Spaced, Fails, row_rounds, Waits, row_rounds-Stands,
}

unfoldable pub sweeps : String → List Round → MemoryStorage → MemoryStorage
sweeps base [] m = m
sweeps base ((clock, out) ∷ rounds) m = sweeps base rounds (sweep clock out base m)

length-map :
    (f : SubscriberDelivery → SubscriberDelivery) (ds : List SubscriberDelivery)
    → length (map f ds) ≡ length ds
length-map f [] = refl
length-map f (d ∷ ds) = omega (arith, length-map f ds)

Among-map :
    (f : SubscriberDelivery → SubscriberDelivery) (d : SubscriberDelivery)
    (ds : List SubscriberDelivery)
    → Among d ds
    → Among (f d) (map f ds)
Among-map f d [] m = absurd m
Among-map f d (e ∷ es) (inl same) = inl (ap f same)
Among-map f d (e ∷ es) (inr m) = inr (Among-map f d es m)

module _ (f : SubscriberDelivery → SubscriberDelivery)
    (f-id : (d : SubscriberDelivery) → (f d).id ≡ d.id) where
  map-All_ids :
      (P : Uuid → Type 0) (ds : List SubscriberDelivery)
      → All (λ d. P d.id) ds
      → All (λ d. P d.id) (map f ds)
  map-All_ids P [] h = tt
  map-All_ids P (d ∷ ds) h = (subst P (sym (f-id d)) h.0, map-All_ids P ds h.1)

  map-HasIds : (ds : List SubscriberDelivery) → HasIds ds → HasIds (map f ds)
  map-HasIds [] h = tt
  map-HasIds (d ∷ ds) h = (
    subst (λ k. All (λ e. e.id ≢ k) (map f ds)) (sym (f-id d)) (map-All_ids (λ i. i ≢ d.id) ds h.0),
    map-HasIds ds h.1,
  )

sweep_row-id :
    (clock : Clock) (out : Outbound) (base : String) (d : SubscriberDelivery)
    → (sweep_row clock out base d).id ≡ d.id
unfolding sweep_row
sweep_row-id clock out base d = elim (Bool-cases (claimable clock.listed_at d)) [
  | inl y ↦ rw y (step-id clock out base d)
  | inr n ↦ rw n refl
]

map-row_rounds :
    (base : String) (clock : Clock) (out : Outbound) (rounds : List Round)
    (ds : List SubscriberDelivery)
    → map (row_rounds base rounds) (map (sweep_row clock out base) ds)
      ≡ map (row_rounds base ((clock, out) ∷ rounds)) ds
unfolding row_rounds
map-row_rounds base clock out rounds [] = refl
map-row_rounds base clock out rounds (d ∷ ds) =
    ap (λ r. row_rounds base rounds (sweep_row clock out base d) ∷ r)
      (map-row_rounds base clock out rounds ds)

map-no_rounds : (base : String) (ds : List SubscriberDelivery) → ds ≡ map (row_rounds base []) ds
unfolding row_rounds
map-no_rounds base [] = refl
map-no_rounds base (d ∷ ds) = ap (λ r. d ∷ r) (map-no_rounds base ds)

-- A queue of at most a batch is swept row by row.
sweeps-rows :
    (base : String) (rounds : List Round) (m : MemoryStorage)
    → HasIds m.subscriber_deliveries
    → length m.subscriber_deliveries ≤ batch_limit
    → (sweeps base rounds m).subscriber_deliveries
      ≡ map (row_rounds base rounds) m.subscriber_deliveries
unfolding sweeps
sweeps-rows base [] m ids few = map-no_rounds base m.subscriber_deliveries
sweeps-rows base ((clock, out) ∷ rounds) m ids few =
    let rows = m.subscriber_deliveries in
    let after = map (sweep_row clock out base) rows in
    let small = length-filter-le (claimable clock.listed_at) rows in
    ap (λ s. (sweeps base rounds s).subscriber_deliveries)
      (sweep-rows clock out base m ids (omega (arith, small, few)))
    ∙ (sweeps-rows base rounds (record m { subscriber_deliveries = after })
          (map-HasIds (sweep_row clock out base) (sweep_row-id clock out base) rows ids)
          (subst (λ n. n ≤ batch_limit) (sym (length-map (sweep_row clock out base) rows)) few)
        ∙ map-row_rounds base clock out rounds rows)

fresh-Waits : (d : SubscriberDelivery) → d.status ≡ pending → d.attempts ≡ 0 → Waits 0 0 d
unfolding claimable
fresh-Waits d new untried = (untried, λ t _. rw new refl)

-- A new delivery whose message fails in every sweep, in a queue of at most a batch that is swept at
-- distances of an hour or more, is tried in each of the first seven sweeps. From the seventh on it is a
-- dead letter with seven attempts, and before the seventh it is not a dead letter.
pub sweeps-park :
    (base : String) (rounds : List Round) (m : MemoryStorage) (d : SubscriberDelivery)
    → HasIds m.subscriber_deliveries
    → length m.subscriber_deliveries ≤ batch_limit
    → Among d m.subscriber_deliveries
    → d.status ≡ pending
    → d.attempts ≡ 0
    → Spaced d.id 0 rounds
    → Fails base d rounds
    → (r : SubscriberDelivery) × Among r (sweeps base rounds m).subscriber_deliveries
      × (r.id ≡ d.id)
      × (7 ≤ length rounds → (r.status ≡ dead_letter) × (r.attempts ≡ 7))
      × (length rounds < 7 → (r.status ≢ dead_letter) × (r.attempts ≡ length rounds))
sweeps-park base rounds m d ids few there new untried spaced fails =
    let r = row_rounds base rounds d in
    let stands =
      row_rounds-Stands base rounds 0 0 d (omega arith) (fresh-Waits d new untried) spaced fails in
    let kept : Among r (sweeps base rounds m).subscriber_deliveries =
      subst (Among r) (sym (sweeps-rows base rounds m ids few))
        (Among-map (row_rounds base rounds) d m.subscriber_deliveries there) in
    (
      r,
      kept,
      stands.0,
      (λ many. stands.1 (omega arith)),
      (λ less. let end = stands.2 (omega arith) in (end.1, omega (arith, end.0))),
    )

claimed-stays :
    (base : String) (rounds : List Round) (d : SubscriberDelivery)
    → d.status ≡ claimed
    → row_rounds base rounds d ≡ d
unfolding row_rounds sweep_row claimable
claimed-stays base [] d h = refl
claimed-stays base ((clock, out) ∷ rounds) d h =
    let shut : claimable clock.listed_at d ≡ false = rw h refl in
    rw (shut, claimed-stays base rounds d h) refl

-- A delivery that was left claimed, as by a stop of the process between the claim and the mark, keeps
-- its row unchanged, status and attempts included, through any number of later sweeps of a queue of at
-- most a batch.
pub sweeps-lose_claimed :
    (base : String) (rounds : List Round) (m : MemoryStorage) (d : SubscriberDelivery)
    → HasIds m.subscriber_deliveries
    → length m.subscriber_deliveries ≤ batch_limit
    → Among d m.subscriber_deliveries
    → d.status ≡ claimed
    → Among d (sweeps base rounds m).subscriber_deliveries
sweeps-lose_claimed base rounds m d ids few there stuck =
    subst (Among d) (sym (sweeps-rows base rounds m ids few)) (
      subst (λ r. Among r (map (row_rounds base rounds) m.subscriber_deliveries))
        (claimed-stays base rounds d stuck)
        (Among-map (row_rounds base rounds) d m.subscriber_deliveries there))
