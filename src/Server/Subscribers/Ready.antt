-- ===== src/Server/Subscribers/Ready.antt =====
-- Which rows a sweep of bin/status-server/src/subscriber_dispatch.rs reaches.
use statuspage.Base.{
  ◌≤◌, ◌≡◌, ◌≢◌, refl, sym, ap, ◌∙◌, arith, Bool, true, ◌==◌, String, List, [], ◌∷◌, map, any,
  filter, length, ltb, Bool-cases, inl, inr, if◌then◌else◌, All, All-map, All-both, All-filter_inv,
  Among, Among-All_of, All-Among, filter-Among, filter-passes, filter-AllPairs, take_all,
  map-eq_of_All,
}
use mathlib.Core.Path.{subst}
use statuspage.Base.Sort.{sort_by, sort_by-All, sort_by-All_inv, sort_by-AllPairs, length-sort_by}
use statuspage.Domain.Time.{Uuid, DateTime}
use statuspage.Domain.Delivery.{SubscriberDelivery}
use statuspage.Storage.Memory.{MemoryStorage}
use statuspage.Storage.Deliveries.{claimable, list_pending_deliveries}
use statuspage.Server.Subscribers.{Clock, attempt_all, sweep, batch_limit}
use statuspage.Server.Subscribers.Message.{Outbound}
use statuspage.Server.Subscribers.Rows.{HasIds, attempt_row}
use statuspage.Server.Subscribers.Each.{lists, attempt_listed, attempt_all-rows}

-- Rows of a list with distinct ids are told apart by their ids.
same_row :
    (ds : List SubscriberDelivery) (d e : SubscriberDelivery)
    → HasIds ds
    → Among d ds
    → Among e ds
    → d.id ≡ e.id
    → d ≡ e
same_row [] d e h m n same = absurd m
same_row (x ∷ xs) d e h (inl p) (inl q) same = p ∙ sym q
same_row (x ∷ xs) d e h (inl p) (inr q) same = absurd (
    Among-All_of (λ y. y.id ≢ x.id) e xs h.0 q (sym same ∙ ap (λ (y : SubscriberDelivery). y.id) p))
same_row (x ∷ xs) d e h (inr p) (inl q) same =
    absurd
      (Among-All_of (λ y. y.id ≢ x.id) d xs h.0 p (same ∙ ap (λ (y : SubscriberDelivery). y.id) q))
same_row (x ∷ xs) d e h (inr p) (inr q) same = same_row xs d e h.1 p q same

lists_self :
    (ks : List SubscriberDelivery) (k : SubscriberDelivery) → Among k ks → lists ks k.id ≡ true
unfolding any
lists_self [] k m = absurd m
lists_self (x ∷ xs) k (inl e) =
    let here : (x.id == k.id) ≡ true =
      let same = ap (λ (y : SubscriberDelivery). y.id) e in ground arith in
    rw here refl
lists_self (x ∷ xs) k (inr m) = elim (Bool-cases (x.id == k.id)) [
  | inl y ↦ rw y refl
  | inr n ↦ rw (n, lists_self xs k m) refl
]

-- An id that is listed is the id of a row of the list.
lists_inv :
    (P : SubscriberDelivery → Type 0) (ks : List SubscriberDelivery) (id : Uuid)
    → All P ks
    → lists ks id ≡ true
    → (k : SubscriberDelivery) × P k × (k.id ≡ id)
unfolding any
lists_inv P [] id h e = absurd (cc)
lists_inv P (x ∷ xs) id h e = elim (Bool-cases (x.id == id)) [
  | inl y ↦ (x, h.0, ground arith)
  | inr n ↦ lists_inv P xs id h.1 (ground arith)
]

module _ (now : DateTime) (rows : List SubscriberDelivery) (ids : HasIds rows) where
  abbrev by_age : SubscriberDelivery → SubscriberDelivery → Bool
  by_age a b = ltb a.created_at b.created_at

  abbrev ready : List SubscriberDelivery
  ready = sort_by by_age (filter (claimable now) rows)

  ready-HasIds : HasIds ready
  ready-HasIds =
      sort_by-AllPairs by_age (λ e d. e.id ≢ d.id) (λ a b h e. h (sym e))
        (filter (claimable now) rows)
        (filter-AllPairs (λ e d. e.id ≢ d.id) (claimable now) rows ids)

  ready-All : All (λ k. Among k rows × (claimable now k ≡ true)) ready
  ready-All =
      sort_by-All by_age (λ k. Among k rows × (claimable now k ≡ true))
        (filter (claimable now) rows)
        (All-both (λ k. Among k rows) (λ k. claimable now k ≡ true) (filter (claimable now) rows)
          (filter-Among (claimable now) rows) (filter-passes (claimable now) rows))

  -- A row is listed exactly when it is free at the time of listing.
  ready-lists : All (λ d. lists ready d.id ≡ claimable now d) rows
  ready-lists =
      All-map (λ d. Among d rows × (claimable now d ≡ true → lists ready d.id ≡ true))
        (λ d. lists ready d.id ≡ claimable now d) (λ d h. decide d h.0 h.1) rows
        (All-both (λ d. Among d rows) (λ d. claimable now d ≡ true → lists ready d.id ≡ true) rows
          (All-Among rows)
          (All-filter_inv (λ d. lists ready d.id ≡ true) (claimable now) rows
            (sort_by-All_inv by_age (λ d. lists ready d.id ≡ true) (filter (claimable now) rows)
              (All-map (λ d. Among d ready) (λ d. lists ready d.id ≡ true) (λ d. lists_self ready d)
                ready (All-Among ready)))))
    where
      decide :
          (d : SubscriberDelivery)
          → Among d rows
          → (claimable now d ≡ true → lists ready d.id ≡ true)
          → lists ready d.id ≡ claimable now d
      decide d m f = elim (Bool-cases (lists ready d.id)) [
        | inl y ↦
            let (k, p, same) =
              lists_inv (λ k. Among k rows × (claimable now k ≡ true)) ready d.id ready-All y in
            y ∙ sym (subst (λ x. claimable now x ≡ true) (same_row rows k d ids p.0 m same) p.1)
        | inr n ↦ elim (Bool-cases (claimable now d)) [
          | inl c ↦ let no_way = f c in absurd (cc)
          | inr c ↦ n ∙ sym c
        ]
      ]

-- A row that is free at the time of listing is attempted.
unfoldable pub sweep_row : Clock → Outbound → String → SubscriberDelivery → SubscriberDelivery
sweep_row clock out base d = if claimable clock.listed_at d then attempt_row clock out base d else d

-- A sweep of at most a batch of free deliveries, row by row.
pub sweep-rows :
    (clock : Clock) (out : Outbound) (base : String) (m : MemoryStorage)
    → HasIds m.subscriber_deliveries
    → length (filter (claimable clock.listed_at) m.subscriber_deliveries) ≤ batch_limit
    → sweep clock out base m
      ≡ record m { subscriber_deliveries = map (sweep_row clock out base) m.subscriber_deliveries }
unfolding sweep list_pending_deliveries sweep_row
sweep-rows clock out base m ids few =
    let rows = m.subscriber_deliveries in
    let now = clock.listed_at in
    let listed = ready now rows ids in
    let whole : list_pending_deliveries now batch_limit m ≡ listed = take_all batch_limit listed (
      subst (λ n. n ≤ batch_limit)
        (sym (length-sort_by (by_age now rows ids) (filter (claimable now) rows))) few) in
    ap (λ ks. attempt_all clock out base ks m) whole
    ∙ (attempt_all-rows clock out base listed m (ready-HasIds now rows ids) ids
        ∙ ap (λ r. record m { subscriber_deliveries = r })
            (map-eq_of_All (attempt_listed clock out base listed) (sweep_row clock out base) rows (
              All-map (λ d. lists listed d.id ≡ claimable now d)
                (λ d. attempt_listed clock out base listed d ≡ sweep_row clock out base d)
                (λ d same. ap (λ b. if b then attempt_row clock out base d else d) same) rows
                (ready-lists now rows ids))))
