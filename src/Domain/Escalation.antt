-- ===== src/Domain/Escalation.antt =====
-- Escalation policies and the ladder walk: crates/core/src/domain/escalation_policy.rs.
pub mod Ladder
pub mod Order
use statuspage.Base.{
  ℕ, Bool, String, Option, none, some, List, [], ◌∷◌, ℤ, pos, ◌+ℤ◌, ltb_ℤ, if◌then◌else◌, find,
  text_eq,
}
use statuspage.Domain.Time.{Uuid, DateTime}

pub data EscalationTargetType : Type 0 where
  user schedule channel : EscalationTargetType

unfoldable pub target_type_as_db_str : EscalationTargetType → String
target_type_as_db_str user = "user"
target_type_as_db_str schedule = "schedule"
target_type_as_db_str channel = "channel"

unfoldable pub target_type_from_db_str : String → EscalationTargetType
target_type_from_db_str s =
    if text_eq s "user" then user else if text_eq s "schedule" then schedule else channel

-- A paging destination, and the one to create: the same fields but for the id.
pub record NewEscalationTarget : Type 0 where
  pub target_type : EscalationTargetType
  pub user_id : Option Uuid
  pub schedule_id : Option Uuid
  pub channel_id : Option Uuid

pub record EscalationTarget : Type 0 where
  pub id : Uuid
  pub target_type : EscalationTargetType
  pub user_id : Option Uuid
  pub schedule_id : Option Uuid
  pub channel_id : Option Uuid

pub record EscalationStep : Type 0 where
  pub id : Uuid
  pub level : ℤ
  pub delay_secs : ℤ
  pub targets : List EscalationTarget

pub record EscalationPolicy : Type 0 where
  pub id : Uuid
  pub name : String
  pub description : Option String
  pub repeat_count : ℤ
  pub steps : List EscalationStep
  pub created_at : DateTime
  pub updated_at : DateTime

pub record NewEscalationStep : Type 0 where
  pub level : ℤ
  pub delay_secs : ℤ
  pub targets : List NewEscalationTarget

pub record NewEscalationPolicy : Type 0 where
  pub name : String
  pub description : Option String
  pub repeat_count : ℤ
  pub steps : List NewEscalationStep

pub data EscalationDecision : Type 0 where
  page : (level round delay_secs : ℤ) → EscalationDecision
  exhausted : EscalationDecision

-- The rung after `level`; `round + 1` is made only below `repeat_count`, so it fits an `i32`.
unfoldable pub next_step : List EscalationStep → ℤ → ℤ → ℤ → EscalationDecision
next_step [] repeat_count level round = exhausted
next_step (first ∷ rest) repeat_count level round =
    elim (find (λ s. ltb_ℤ level s.level) (first ∷ rest)) [
      | some next ↦ page next.level round next.delay_secs
      | none ↦
          if ltb_ℤ round repeat_count
          then page first.level (round +ℤ pos 1) first.delay_secs
          else exhausted
    ]

-- Per-incident progress.
pub record IncidentEscalationState : Type 0 where
  pub incident_id : Uuid
  pub policy_id : Uuid
  pub current_level : ℤ
  pub current_round : ℤ
  pub last_paged_at : DateTime
  pub next_check_at : DateTime
  pub acked : Bool
