-- ===== src/Domain/Silence/Laws.antt =====
-- What a silence rule suppresses, as the documentation in crates/core/src/domain/silence.rs says it.
use statuspage.Base.{
  ◌≤◌, ◌<◌, ◌≡◌, refl, ◌↔◌, ◌⊎◌, inl, inr, true, false, Option, none, some, List, [], ◌∷◌, arith,
  any,
}
use statuspage.Domain.Time.{Uuid, DateTime}
use statuspage.Domain.Status.{DeliveryReason}
use statuspage.Domain.Silence.{
  SilenceRule, target_differs, channel_differs, reason_eq, reason_excluded, is_active_at, matches,
}

-- Membership, computing to a sum.
abbrev pub Listed : List DeliveryReason → DeliveryReason → Type 0
Listed [] reason = ⊥
Listed (r ∷ rs) reason = (reason ≡ r) ⊎ Listed rs reason

-- The matchers of the module's documentation: an absent id matches every target or channel, a
-- channel that is not resolved yet is matched by every rule, and no reasons match every reason.
pub record Covers (r : SilenceRule) (target_id : Uuid) (channel_id : Option Uuid)
    (reason : DeliveryReason) : Type 0 where
  pub target : (r.target_id ≡ none) ⊎ (r.target_id ≡ some target_id)
  pub channel : (r.channel_id ≡ none) ⊎ ((channel_id ≡ none) ⊎ (r.channel_id ≡ channel_id))
  pub listed : (r.reasons ≡ []) ⊎ Listed r.reasons reason

reason_eq_iff : (a b : DeliveryReason) → (reason_eq a b ≡ true) ↔ (a ≡ b)
reason_eq_iff a b = ground arith

Listed-any :
    (rs : List DeliveryReason) (reason : DeliveryReason)
    → (any (reason_eq reason) rs ≡ true) ↔ Listed rs reason
unfolding any
Listed-any [] reason = (λ h. cc, λ h. absurd h)
Listed-any (r ∷ rs) reason = ground (arith, reason_eq_iff reason r, Listed-any rs reason)

reasons_iff :
    (rs : List DeliveryReason) (reason : DeliveryReason)
    → (reason_excluded rs reason ≡ false) ↔ ((rs ≡ []) ⊎ Listed rs reason)
unfolding reason_excluded
reasons_iff [] reason = (λ h. inl refl, λ h. refl)
reasons_iff (r ∷ rs) reason = ground (arith, Listed-any (r ∷ rs) reason)

target_iff :
    (rule_target : Option Uuid) (target_id : Uuid)
    → (target_differs rule_target target_id ≡ false)
      ↔ ((rule_target ≡ none) ⊎ (rule_target ≡ some target_id))
target_iff none target_id = (λ h. inl refl, λ h. refl)
target_iff (some t) target_id = (λ h. inr (ground arith), λ h. ground arith)

channel_iff :
    (rule_channel channel_id : Option Uuid)
    → (channel_differs rule_channel channel_id ≡ false)
      ↔ ((rule_channel ≡ none) ⊎ ((channel_id ≡ none) ⊎ (rule_channel ≡ channel_id)))
channel_iff none channel_id = (λ h. inl refl, λ h. refl)
channel_iff (some c) none = (λ h. inr (inl refl), λ h. refl)
channel_iff (some c) (some ch) = (λ h. inr (inr (ground arith)), λ h. ground arith)

matches-passes :
    (r : SilenceRule) (target_id : Uuid) (channel_id : Option Uuid) (reason : DeliveryReason)
    → matches r target_id channel_id reason ≡ true
    → (target_differs r.target_id target_id ≡ false)
      × (channel_differs r.channel_id channel_id ≡ false)
      × (reason_excluded r.reasons reason ≡ false)
unfolding matches
matches-passes r target_id channel_id reason h = ground arith

-- A rule matches a notification exactly if every matcher covers it, and is active exactly from its
-- start, inclusive, to its end, exclusive.
pub matches-iff-Covers :
    (r : SilenceRule) (target_id : Uuid) (channel_id : Option Uuid) (reason : DeliveryReason)
    (now : DateTime)
    → ((matches r target_id channel_id reason ≡ true) ↔ Covers r target_id channel_id reason)
      × ((is_active_at r now ≡ true) ↔ ((r.starts_at ≤ now) × (now < r.ends_at)))
unfolding matches is_active_at
matches-iff-Covers r target_id channel_id reason now = (
  (
    λ h.
        let (t, c, x) = matches-passes r target_id channel_id reason h in
        record {
          target = (target_iff r.target_id target_id).0 t;
          channel = (channel_iff r.channel_id channel_id).0 c;
          listed = (reasons_iff r.reasons reason).0 x;
        },
    λ h. rw (
      (target_iff r.target_id target_id).1 h.target,
      (channel_iff r.channel_id channel_id).1 h.channel,
      (reasons_iff r.reasons reason).1 h.listed,
    ),
  ),
  (λ h. ground arith, λ h. ground arith),
)
