-- ===== src/Server/Dispatch/Notified.antt =====
-- Which channels of a target are notified of an incident: `dispatch_to_target_channels` of
-- bin/status-server/src/incident_writer/channel_dispatch.rs.
use statuspage.Base.{
  Among, ◌≡◌, ◌≤◌, ◌<◌, refl, arith, ◌⊎◌, ◌↔◌, inl, inr, Bool, true, false, ◌&&◌, ◌==◌, none, some,
  List, [], ◌∷◌, any, filter, filter-passes, All, All-both, All-map, All-filter, All-filter_inv,
  Bool-cases, Option-cases, ltb, ==_refl, Option, is_none, ◌≢◌,
}
use mathlib.Core.Path.{subst}
use statuspage.Base.Dict.{get, values}
use statuspage.Base.Sort.{sort_by, sort_by-All, sort_by-All_inv}
use statuspage.Domain.Time.{Uuid, DateTime}
use statuspage.Domain.Status.{DeliveryReason}
use statuspage.Domain.Incident.{Incident}
use statuspage.Domain.Monitor.{Target}
use statuspage.Domain.Channel.{ChannelKind, NotificationChannel, awaiting_verification, is_email}
use statuspage.Domain.Silence.{SilenceRule, matches, is_active_at}
use statuspage.Domain.Silence.Laws.{Covers, matches-iff-Covers}
use statuspage.Storage.Memory.{MemoryStorage, ok}
use statuspage.Storage.Results.{get_target}
use statuspage.Storage.Silences.{list_active_silences_for_target, aims_at}
use statuspage.Server.Dispatch.{
  Notice, notice_reason, silenced, wants_notice, notify_bound, dispatch_to_target_channels,
}

-- The rule, if it is active, does not cover the notification.
abbrev Spares : DateTime → Uuid → Uuid → DeliveryReason → SilenceRule → Type 0
Spares now target_id channel_id reason r =
    r.starts_at ≤ now → now < r.ends_at → ¬ Covers r target_id (some channel_id) reason

-- The address of an email channel is verified; other channels need no verification.
abbrev pub IsConfirmed : ChannelKind → Option DateTime → Type 0
IsConfirmed ChannelKind.email at = at ≢ none
IsConfirmed _ at = Unit

-- The channel is enabled and, if it is an email channel, verified, and no stored silence that is active
-- covers it.
pub record IsWanted (now : DateTime) (target_id : Uuid) (reason : DeliveryReason)
    (m : MemoryStorage) (c : NotificationChannel) : Type 0 where
  pub enabled : c.enabled ≡ true
  pub confirmed : IsConfirmed c.kind c.verified_at
  pub unsilenced : All (Spares now target_id c.id reason) (values m.silence_rules)

any_iff :
    (p : SilenceRule → Bool) (rs : List SilenceRule)
    → (any p rs ≡ false) ↔ All (λ r. p r ≡ false) rs
unfolding any
any_iff p [] = (λ h. tt, λ h. refl)
any_iff p (r ∷ rs) =
    let rest = any_iff p rs in
    (λ h. (ground arith, rest.0 (ground arith)), λ h. let tail = rest.1 h.1 in rw (h.0, tail))

module _ (now : DateTime) (target_id channel_id : Uuid) (reason : DeliveryReason) where
  -- The rules that the store lists for the target.
  abbrev listed : SilenceRule → Bool
  listed r = is_active_at r now && aims_at target_id r.target_id

  Spares-iff :
      (r : SilenceRule)
      → (listed r ≡ true → matches r target_id (some channel_id) reason ≡ false)
        ↔ Spares now target_id channel_id reason r
  Spares-iff r =
      let exact = matches-iff-Covers r target_id (some channel_id) reason now in
      (
        λ h from to covered.
            let on : is_active_at r now ≡ true = exact.1.1 (from, to) in
            let aimed : aims_at target_id r.target_id ≡ true = aims covered.target in
            let hit : matches r target_id (some channel_id) reason ≡ true = exact.0.1 covered in
            let missed = h (rw (on, aimed)) in absurd (cc),
        λ spared on. elim (Bool-cases (matches r target_id (some channel_id) reason)) [
          | inl y ↦
              let active : is_active_at r now ≡ true = ground arith in
              let times = exact.1.0 active in absurd (spared times.0 times.1 (exact.0.0 y))
          | inr n ↦ n
        ],
      )
    where
      aims :
          ((r.target_id ≡ none) ⊎ (r.target_id ≡ some target_id))
          → aims_at target_id r.target_id ≡ true
      aims (inl h) = rw h
      aims (inr h) = rw (h, ==_refl target_id)

  silenced_iff :
      (m : MemoryStorage)
      → (silenced (list_active_silences_for_target now target_id m) target_id channel_id reason
          ≡ false)
        ↔ All (Spares now target_id channel_id reason) (values m.silence_rules)
  unfolding silenced list_active_silences_for_target
  silenced_iff m =
      let hits = λ (r : SilenceRule). matches r target_id (some channel_id) reason in
      let rules = values m.silence_rules in
      let misses : SilenceRule → Type 0 = λ r. hits r ≡ false in
      let by_start = λ (a b : SilenceRule). ltb a.starts_at b.starts_at in
      let exact = any_iff hits (sort_by by_start (filter listed rules)) in
      (
        λ h.
            All-map (λ r. listed r ≡ true → misses r) (Spares now target_id channel_id reason)
              (λ r. (Spares-iff r).0) rules
              (All-filter_inv misses listed rules
                (sort_by-All_inv by_start misses (filter listed rules) (exact.0 h))),
        λ h. exact.1 (
            sort_by-All by_start misses (filter listed rules) (
              All-map (λ r. (listed r ≡ true → misses r) × (listed r ≡ true)) misses
                (λ r k. k.0 k.1) (filter listed rules)
                (All-both (λ r. listed r ≡ true → misses r) (λ r. listed r ≡ true)
                  (filter listed rules)
                  (All-filter (λ r. listed r ≡ true → misses r) listed rules
                    (All-map (Spares now target_id channel_id reason)
                      (λ r. listed r ≡ true → misses r) (λ r. (Spares-iff r).1) rules h))
                  (filter-passes listed rules)))),
      )

IsConfirmed-iff :
    (c : NotificationChannel) → (awaiting_verification c ≡ false) ↔ IsConfirmed c.kind c.verified_at
unfolding awaiting_verification
IsConfirmed-iff c = by_kind c.kind c.verified_at
  where
    by_time : (at : Option DateTime) → (is_none at ≡ false) ↔ (at ≢ none)
    by_time none = (λ h. cc, λ h. absurd (h refl))
    by_time (some t) = (λ h e. cc, λ h. refl)

    by_kind :
        (k : ChannelKind) (at : Option DateTime)
        → (is_email k && is_none at ≡ false) ↔ IsConfirmed k at
    by_kind ChannelKind.email at = by_time at
    by_kind _ at = (λ h. tt, λ h. refl)

-- The loop's tests say what the documentation of channels and silences says.
wants_iff :
    (now : DateTime) (target_id : Uuid) (reason : DeliveryReason) (m : MemoryStorage)
    (c : NotificationChannel)
    → (wants_notice (list_active_silences_for_target now target_id m) target_id reason c ≡ true)
      ↔ IsWanted now target_id reason m c
unfolding wants_notice
wants_iff now target_id reason m c =
    let exact = silenced_iff now target_id c.id reason m in
    (
      λ h. record {
        enabled = ground arith;
        confirmed = (IsConfirmed-iff c).0 (ground arith);
        unsilenced = exact.0 (ground arith);
      },
      λ w.
          let quiet = exact.1 w.unsilenced in
          let settled = (IsConfirmed-iff c).1 w.confirmed in rw (w.enabled, settled, quiet),
    )

abbrev pub notice : Incident → DeliveryReason → NotificationChannel → Notice
notice incident reason c = record {
  channel_id = c.id;
  incident_id = incident.id;
  reason = notice_reason reason;
}

module _ (rules : List SilenceRule) (target_id : Uuid) (incident : Incident)
    (reason : DeliveryReason) (m : MemoryStorage) where
  -- The notice is for a bound channel that is stored and passes the tests.
  abbrev Due : List Uuid → Notice → Type 0
  Due bound n =
      (b : Uuid) × (c : NotificationChannel) × Among b bound
      × (get b m.notification_channels ≡ some c)
      × (n ≡ notice incident reason c)
      × (wants_notice rules target_id reason c ≡ true)

  notify_bound-Due :
      (bound : List Uuid) → All (Due bound) (notify_bound rules target_id incident reason m bound)
  unfolding notify_bound
  notify_bound-Due [] = tt
  notify_bound-Due (b ∷ bound) =
      let others =
        All-map (Due bound) (Due (b ∷ bound)) (λ n d. (d.0, d.1, inr d.2, d.3, d.4, d.5))
          (notify_bound rules target_id incident reason m bound) (notify_bound-Due bound) in
      elim (Option-cases (get b m.notification_channels)) [
        | inl e ↦ rw (notify_bound, e) others
        | inr (c, e) ↦ elim (Bool-cases (wants_notice rules target_id reason c)) [
          | inl y ↦ rw (notify_bound, e, y) ((b, c, inl refl, e, refl, y), others)
          | inr n ↦ rw (notify_bound, e, n) others
        ]
      ]

  notify_bound_complete :
      (bound : List Uuid) (b : Uuid) (c : NotificationChannel)
      → Among b bound
      → get b m.notification_channels ≡ some c
      → wants_notice rules target_id reason c ≡ true
      → Among (notice incident reason c) (notify_bound rules target_id incident reason m bound)
  unfolding notify_bound
  notify_bound_complete [] b c among at wanted = absurd among
  notify_bound_complete (x ∷ bound) b c (inl same) at wanted =
      let at_x : get x m.notification_channels ≡ some c =
        subst (λ k. get k m.notification_channels ≡ some c) same at in
      rw (notify_bound, at_x, wanted) (inl refl)
  notify_bound_complete (x ∷ bound) b c (inr among) at wanted =
      let rest = notify_bound_complete bound b c among at wanted in
      elim (Option-cases (get x m.notification_channels)) [
        | inl e ↦ rw (notify_bound, e) rest
        | inr (d, e) ↦ elim (Bool-cases (wants_notice rules target_id reason d)) [
          | inl y ↦ rw (notify_bound, e, y) (inr rest)
          | inr n ↦ rw (notify_bound, e, n) rest
        ]
      ]

dispatched :
    (now : DateTime) (incident : Incident) (reason : DeliveryReason) (m : MemoryStorage)
    (target : Target)
    → (incident.target_id == 0) ≡ false
    → get_target incident.target_id m ≡ ok target
    → dispatch_to_target_channels now incident reason m
      ≡ notify_bound
          (list_active_silences_for_target now target.id m)
          target.id
          incident
          reason
          m
          target.alerts
unfolding dispatch_to_target_channels
dispatched now incident reason m target named found = rw (dispatch_to_target_channels, named, found)

-- A change of an incident of a stored target, whose id is not nil, is announced to exactly those channels that are bound to
-- the target, stored, enabled and, if they are email channels, verified, and that no stored silence
-- covers which is active at that time: every notice is for such a channel, and for every such channel there is a notice.
pub dispatch-Notified :
    (now : DateTime) (incident : Incident) (reason : DeliveryReason) (m : MemoryStorage)
    (target : Target)
    → (incident.target_id == 0) ≡ false
    → get_target incident.target_id m ≡ ok target
    → All
        (λ n.
          (b : Uuid) × (c : NotificationChannel) × Among b target.alerts
          × (get b m.notification_channels ≡ some c)
          × (n ≡ notice incident reason c)
          × IsWanted now target.id reason m c)
        (dispatch_to_target_channels now incident reason m)
      × ((b : Uuid) (c : NotificationChannel)
          → Among b target.alerts
          → get b m.notification_channels ≡ some c
          → IsWanted now target.id reason m c
          → Among (notice incident reason c) (dispatch_to_target_channels now incident reason m))
dispatch-Notified now incident reason m target named found =
    let rules = list_active_silences_for_target now target.id m in
    let sent : dispatch_to_target_channels now incident reason m
        ≡ notify_bound rules target.id incident reason m target.alerts =
      dispatched now incident reason m target named found in
    (
      rw sent (
          All-map (Due rules target.id incident reason m target.alerts) _
            (λ n d. (d.0, d.1, d.2, d.3, d.4, (wants_iff now target.id reason m d.1).0 d.5))
            (notify_bound rules target.id incident reason m target.alerts)
            (notify_bound-Due rules target.id incident reason m target.alerts)),
      λ b c among at wanted. rw sent (
          notify_bound_complete rules target.id incident reason m target.alerts b c among at
            ((wants_iff now target.id reason m c).1 wanted)),
    )
