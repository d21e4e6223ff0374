-- ===== src/Domain/Silence.antt =====
-- Silence rules and what they match: crates/core/src/domain/silence.rs.
pub mod Laws
use statuspage.Base.{
  String, Bool, true, false, not, ◌&&◌, Option, none, some, List, [], ◌∷◌, any, ◌==◌, if◌then◌else◌,
}
use statuspage.Domain.Time.{Uuid, DateTime, in_window}
use statuspage.Domain.Status.{
  WriteSource, DeliveryReason, incident_opened, incident_resolved, incident_update,
  maintenance_started, maintenance_ended,
}

pub record SilenceRule : Type 0 where
  pub id : Uuid
  pub title : String
  pub description : Option String
  pub target_id : Option Uuid
  pub channel_id : Option Uuid
  pub reasons : List DeliveryReason
  pub starts_at : DateTime
  pub ends_at : DateTime
  pub created_at : DateTime
  pub updated_at : DateTime
  pub write_source : WriteSource

-- The derived equality of reasons.
abbrev pub reason_eq : DeliveryReason → DeliveryReason → Bool
reason_eq incident_opened incident_opened = true
reason_eq incident_resolved incident_resolved = true
reason_eq incident_update incident_update = true
reason_eq maintenance_started maintenance_started = true
reason_eq maintenance_ended maintenance_ended = true
reason_eq _ _ = false

unfoldable pub is_active_at : SilenceRule → DateTime → Bool
is_active_at r now = in_window r.starts_at r.ends_at now

-- `Some(rule_target) = self.target_id && rule_target != target_id`.
abbrev pub target_differs : Option Uuid → Uuid → Bool
target_differs none target_id = false
target_differs (some rule_target) target_id = not (rule_target == target_id)

-- `(Some(rule_channel), Some(ch))` and they differ.
abbrev pub channel_differs : Option Uuid → Option Uuid → Bool
channel_differs none channel_id = false
channel_differs (some rule_channel) none = false
channel_differs (some rule_channel) (some ch) = not (rule_channel == ch)

-- `!self.reasons.is_empty() && !self.reasons.contains(&reason)`.
unfoldable pub reason_excluded : List DeliveryReason → DeliveryReason → Bool
unfolding any
reason_excluded [] reason = false
reason_excluded (r ∷ rs) reason = not (any (reason_eq reason) (r ∷ rs))

unfoldable pub matches : SilenceRule → Uuid → Option Uuid → DeliveryReason → Bool
unfolding reason_excluded
matches r target_id channel_id reason =
    if target_differs r.target_id target_id
    then false
    else if channel_differs r.channel_id channel_id
    then false
    else if reason_excluded r.reasons reason
    then false
    else true

pub record NewSilenceRule : Type 0 where
  pub title : String
  pub description : Option String
  pub target_id : Option Uuid
  pub channel_id : Option Uuid
  pub reasons : List DeliveryReason
  pub starts_at : DateTime
  pub ends_at : DateTime

-- An absent field leaves the stored value; `Some(None)` clears an id.
pub record SilenceRuleUpdate : Type 0 where
  pub title : Option String
  pub description : Option String
  pub target_id : Option (Option Uuid)
  pub channel_id : Option (Option Uuid)
  pub reasons : Option (List DeliveryReason)
  pub starts_at : Option DateTime
  pub ends_at : Option DateTime

pub data SilenceFilter : Type 0 where
  active upcoming past all : SilenceFilter
