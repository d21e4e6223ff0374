-- ===== src/Domain/OnCall/Resolve.antt =====
-- Who is on call: `resolve_on_call` of crates/core/src/domain/on_call.rs.
use statuspage.Base.{
  Bool, true, false, ltb, leb, ◌&&◌, ◌||◌, ◌==◌, if◌then◌else◌, Option, none, some, String, List,
  [], ◌∷◌, ◌++◌, filter, any, ltb_ℤ, leb_ℤ, unwrap_or,
}
use statuspage.Base.Sort.{sort_by}
use statuspage.Domain.Time.{Uuid, DateTime}
use statuspage.Domain.OnCall.Slot.{OnCallLayer, OnCallParticipant, Zone, layer_on_call}

pub record OnCallOverride : Type 0 where
  pub id : Uuid
  pub user_id : Uuid
  pub starts_at : DateTime
  pub ends_at : DateTime
  pub created_by : Option Uuid
  pub created_at : DateTime

pub record OnCallSchedule : Type 0 where
  pub id : Uuid
  pub name : String
  pub timezone : String
  pub created_at : DateTime
  pub updated_at : DateTime

-- The zones that `Tz::from_str` knows by name, and `Tz::UTC`.
pub record Zones : Type 0 where
  pub from_str : String → Option Zone
  pub utc : Zone

unfoldable pub covers : DateTime → OnCallOverride → Bool
covers at o = leb o.starts_at at && ltb at o.ends_at

-- The loop that keeps each user once.
unfoldable pub push_users : List Uuid → List OnCallOverride → List Uuid
push_users out [] = out
push_users out (o ∷ os) =
    push_users (if any (λ u. u == o.user_id) out then out else out ++ o.user_id ∷ []) os

unfoldable pub has_participants : List OnCallParticipant → Bool
has_participants [] = false
has_participants (p ∷ ps) = true

-- A higher order comes first, and of equal orders the older layer.
unfoldable pub outranks : OnCallLayer → OnCallLayer → Bool
outranks a b =
    ltb_ℤ b.layer_order a.layer_order
    || (leb_ℤ b.layer_order a.layer_order && ltb a.created_at b.created_at)

unfoldable pub first_on_call : Zone → DateTime → List OnCallLayer → List Uuid
first_on_call z at [] = []
first_on_call z at (layer ∷ rest) =
    let others = first_on_call z at rest in
    elim (layer_on_call layer z at) [ none ↦ others | some uid ↦ uid ∷ [] ]

unfoldable pub rotation_on_call : Zone → List OnCallLayer → DateTime → List Uuid
unfolding first_on_call outranks has_participants
rotation_on_call z layers at =
    first_on_call z at (sort_by outranks (filter (λ l. has_participants l.participants) layers))

unfoldable pub resolve_on_call :
    Zones → OnCallSchedule → List OnCallLayer → List OnCallOverride → DateTime → List Uuid
unfolding covers push_users rotation_on_call
resolve_on_call zones schedule layers overrides at = elim (filter (covers at) overrides) [
  | [] ↦ rotation_on_call (unwrap_or (zones.from_str schedule.timezone) zones.utc) layers at
  | o ∷ os ↦ push_users [] (sort_by (λ a b. ltb a.starts_at b.starts_at) (o ∷ os))
]
