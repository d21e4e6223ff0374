-- ===== src/Domain/Codes/Accounts.antt =====
-- The texts of the enumerations in crates/core/src/domain/escalation_policy.rs, subscriber.rs,
-- membership.rs and oauth.rs.
use statuspage.Base.{
  ◌≡◌, refl, inl, inr, ◌⊎◌, none, some, String, List, [], ◌∷◌, find, text_eq, text_eq_iff,
  Bool-cases,
}
use statuspage.Domain.Codes.Faithful.{IsFaithful, IsExact, arm, exact_arm}
use statuspage.Domain.Escalation
use statuspage.Domain.Delivery
use statuspage.Domain.Account

pub target_type-IsFaithful :
    IsFaithful Escalation.target_type_as_db_str Escalation.target_type_from_db_str
      Escalation.EscalationTargetType.channel
unfolding Escalation.target_type_as_db_str Escalation.target_type_from_db_str
target_type-IsFaithful = (
  elim [
    | Escalation.EscalationTargetType.user ↦ refl
    | Escalation.EscalationTargetType.schedule ↦ refl
    | Escalation.EscalationTargetType.channel ↦ refl
  ],
  λ s.
      arm Escalation.target_type_as_db_str Escalation.EscalationTargetType.channel s
        Escalation.EscalationTargetType.user _
        (arm Escalation.target_type_as_db_str Escalation.EscalationTargetType.channel s
          Escalation.EscalationTargetType.schedule _ (inl refl)),
)

find_channel :
    (s : String) (cs : List Delivery.SubscriberChannel)
    → let r = find (λ c. text_eq (Delivery.subscriber_channel_as_db_str c) s) cs in
      (r ≡ none)
      ⊎ ((c : Delivery.SubscriberChannel) × (r ≡ some c)
          × (Delivery.subscriber_channel_as_db_str c ≡ s))
unfolding find
find_channel s [] = inl refl
find_channel s (c ∷ cs) = elim (Bool-cases (text_eq (Delivery.subscriber_channel_as_db_str c) s)) [
  | inl e ↦ rw e (inr (c, refl, (text_eq_iff (Delivery.subscriber_channel_as_db_str c) s).0 e))
  | inr e ↦ rw e (find_channel s cs)
]

pub subscriber_channel-IsExact :
    IsExact Delivery.subscriber_channel_as_db_str Delivery.subscriber_channel_from_db_str
unfolding Delivery.subscriber_channel_from_db_str Delivery.subscriber_channel_as_db_str find
subscriber_channel-IsExact = (
  elim [
    | Delivery.SubscriberChannel.email ↦ refl
    | Delivery.SubscriberChannel.webhook ↦ refl
    | Delivery.SubscriberChannel.slack ↦ refl
    | Delivery.SubscriberChannel.sms ↦ refl
  ],
  λ s. find_channel s (
      Delivery.SubscriberChannel.email ∷ Delivery.SubscriberChannel.webhook
      ∷ Delivery.SubscriberChannel.slack ∷ Delivery.SubscriberChannel.sms ∷ []),
)

pub role-IsExact : IsExact Account.role_as_db_str Account.role_from_db_str
unfolding Account.role_as_db_str Account.role_from_db_str
role-IsExact = (
  elim [ Account.Role.owner ↦ refl | Account.Role.member ↦ refl ],
  λ s.
      exact_arm Account.role_as_db_str s Account.Role.owner _
        (exact_arm Account.role_as_db_str s Account.Role.member _ (inl refl)),
)

pub provider-IsExact : IsExact Account.provider_as_db_str Account.provider_from_db_str
unfolding Account.provider_as_db_str Account.provider_from_db_str
provider-IsExact = (
  elim [ Account.OauthProvider.github ↦ refl | Account.OauthProvider.google ↦ refl ],
  λ s.
      exact_arm Account.provider_as_db_str s Account.OauthProvider.github _
        (exact_arm Account.provider_as_db_str s Account.OauthProvider.google _ (inl refl)),
)
