-- ===== src/Server/Subscribers/Each.antt =====
-- A whole sweep of bin/status-server/src/subscriber_dispatch.rs, row by row.
use statuspage.Base.{
  ◌≡◌, ◌≢◌, refl, sym, ap, ◌∙◌, arith, Bool, true, false, ◌==◌, String, List, [], ◌∷◌, map, any,
  Bool-cases, inl, inr, if◌then◌else◌, All,
}
use mathlib.Core.Path.{subst}
use statuspage.Domain.Time.{Uuid, DateTime}
use statuspage.Domain.Status.{DeliveryStatus, pending, claimed, sent, failed, dead_letter}
use statuspage.Domain.Delivery.{SubscriberDelivery}
use statuspage.Storage.Memory.{MemoryStorage}
use statuspage.Storage.Deliveries.{claimable, settle}
use statuspage.Server.Subscribers.{Clock, attempt_all}
use statuspage.Server.Subscribers.Message.{Outbound}
use statuspage.Server.Subscribers.Rows.{
  HasIds, marked_row, sent_row, attempt_row, at_id, attempt_delivery-rows,
}

pub settle-id :
    (now : DateTime) (status : DeliveryStatus) (d : SubscriberDelivery)
    → (settle now status d).id ≡ d.id
unfolding settle
settle-id now pending d = refl
settle-id now claimed d = refl
settle-id now sent d = refl
settle-id now failed d = refl
settle-id now dead_letter d = refl

-- The ids of these deliveries.
abbrev pub lists : List SubscriberDelivery → Uuid → Bool
lists ks id = any (λ k. k.id == id) ks

module _ (clock : Clock) (out : Outbound) (base : String) where
  abbrev pub step : SubscriberDelivery → SubscriberDelivery
  step = attempt_row clock out base

  pub step-id : (d : SubscriberDelivery) → (step d).id ≡ d.id
  unfolding attempt_row marked_row sent_row
  step-id d = elim (Bool-cases (claimable (clock.claimed_at d.id) d)) [
    | inl y ↦ rw y (settle-id _ _ _)
    | inr n ↦ rw n refl
  ]

  abbrev pub attempt_listed : List SubscriberDelivery → SubscriberDelivery → SubscriberDelivery
  attempt_listed ks d = if lists ks d.id then step d else d

  map-none : (rows : List SubscriberDelivery) → map (attempt_listed []) rows ≡ rows
  unfolding any
  map-none [] = refl
  map-none (d ∷ ds) = ap (λ r. d ∷ r) (map-none ds)

  at_id-All :
      (P : Uuid → Type 0) (id : Uuid) (rows : List SubscriberDelivery)
      → All (λ d. P d.id) rows
      → All (λ d. P d.id) (at_id step id rows)
  unfolding at_id
  at_id-All P id [] h = tt
  at_id-All P id (d ∷ ds) h = elim (Bool-cases (d.id == id)) [
    | inl y ↦ rw y (subst P (sym (step-id d)) h.0, at_id-All P id ds h.1)
    | inr n ↦ rw n (h.0, at_id-All P id ds h.1)
  ]

  at_id-HasIds :
      (id : Uuid) (rows : List SubscriberDelivery) → HasIds rows → HasIds (at_id step id rows)
  unfolding at_id
  at_id-HasIds id [] h = tt
  at_id-HasIds id (d ∷ ds) h =
      let rest = at_id-All (λ i. i ≢ d.id) id ds h.0 in
      elim (Bool-cases (d.id == id)) [
        | inl y ↦ rw y (
          subst (λ k. All (λ e. e.id ≢ k) (at_id step id ds)) (sym (step-id d)) rest,
          at_id-HasIds id ds h.1,
        )
        | inr n ↦ rw n (rest, at_id-HasIds id ds h.1)
      ]

  lists-absent :
      (k : Uuid) (ks : List SubscriberDelivery) → All (λ e. e.id ≢ k) ks → lists ks k ≡ false
  unfolding any
  lists-absent k [] h = refl
  lists-absent k (e ∷ es) h =
      let differs = h.0 in
      let other : (e.id == k) ≡ false = ground arith in rw (other, lists-absent k es h.1) refl

  -- At one row, the first attempt and then the others.
  listed-here :
      (k d : SubscriberDelivery) (ks : List SubscriberDelivery)
      → All (λ e. e.id ≢ k.id) ks
      → d.id ≡ k.id
      → attempt_listed ks (step d) ≡ attempt_listed (k ∷ ks) d
  unfolding any
  listed-here k d ks h same =
      let gone : lists ks (step d).id ≡ false =
        subst (λ i. lists ks i ≡ false) (sym (step-id d ∙ same)) (lists-absent k.id ks h) in
      let here : (k.id == d.id) ≡ true = ground arith in rw (gone, here) refl

  listed-other :
      (k d : SubscriberDelivery) (ks : List SubscriberDelivery)
      → (k.id == d.id) ≡ false
      → attempt_listed ks d ≡ attempt_listed (k ∷ ks) d
  unfolding any
  listed-other k d ks apart = rw apart refl

  attempt_listed-cons :
      (k : SubscriberDelivery) (ks rows : List SubscriberDelivery)
      → All (λ e. e.id ≢ k.id) ks
      → map (attempt_listed ks) (at_id step k.id rows) ≡ map (attempt_listed (k ∷ ks)) rows
  unfolding at_id
  attempt_listed-cons k ks [] h = refl
  attempt_listed-cons k ks (d ∷ ds) h =
      let rest = attempt_listed-cons k ks ds h in
      elim (Bool-cases (d.id == k.id)) [
        | inl y ↦
            let same : d.id ≡ k.id = ground arith in
            let here = listed-here k d ks h same in rw (y, at_id) (cc (here, rest))
        | inr n ↦
            let apart : (k.id == d.id) ≡ false = ground arith in
            let other = listed-other k d ks apart in rw (n, at_id) (cc (other, rest))
      ]

  pub attempt_all-rows :
      (ks : List SubscriberDelivery) (m : MemoryStorage)
      → HasIds ks
      → HasIds m.subscriber_deliveries
      → attempt_all clock out base ks m
        ≡ record m { subscriber_deliveries = map (attempt_listed ks) m.subscriber_deliveries }
  unfolding attempt_all
  attempt_all-rows [] m hk hm = rw (map-none m.subscriber_deliveries) refl
  attempt_all-rows (k ∷ ks) m hk hm =
      let rows = at_id step k.id m.subscriber_deliveries in
      ap (attempt_all clock out base ks) (attempt_delivery-rows clock out base k.id m hm)
      ∙ (attempt_all-rows ks (record m { subscriber_deliveries = rows }) hk.1
            (at_id-HasIds k.id m.subscriber_deliveries hm)
          ∙ ap (λ r. record m { subscriber_deliveries = r })
              (attempt_listed-cons k ks m.subscriber_deliveries hk.0))
