-- ===== src/Domain/OnCall/Slot.antt =====
-- Layers, participants and the rotation index: crates/core/src/domain/on_call.rs. The zones of the
-- chrono_tz crate are a parameter: what it computes between instants and wall-clock times.
use statuspage.Base.{
  ℕ, ◌+◌, ◌-◌, ◌*◌, ◌/◌, ◌%◌, max, ltb, if◌then◌else◌, Option, none, some, String, List, [], ◌∷◌,
  text_eq, ℤ, pos_part, neg_part, ltb_ℤ, length, get_elem?,
}
use statuspage.Base.Sort.{sort_by}
use statuspage.Domain.Time.{Uuid, DateTime, nanos, secs_between}

pub data RotationType : Type 0 where
  daily weekly custom : RotationType

unfoldable pub rotation_as_db_str : RotationType → String
rotation_as_db_str daily = "daily"
rotation_as_db_str weekly = "weekly"
rotation_as_db_str custom = "custom"

unfoldable pub rotation_from_db_str : String → RotationType
rotation_from_db_str s =
    if text_eq s "daily" then daily else if text_eq s "weekly" then weekly else custom

pub record OnCallParticipant : Type 0 where
  pub id : Uuid
  pub user_id : Uuid
  pub position : ℤ

pub record OnCallLayer : Type 0 where
  pub id : Uuid
  pub name : Option String
  pub rotation_type : RotationType
  pub rotation_length_secs : ℤ
  pub handoff_at : DateTime
  pub layer_order : ℤ
  pub created_at : DateTime
  pub participants : List OnCallParticipant

-- `LocalResult` of chrono: the instants at which a zone's clocks show a wall-clock time.
pub data LocalResult : Type 0 where
  single : DateTime → LocalResult
  ambiguous : DateTime → DateTime → LocalResult
  gap : LocalResult

-- `LocalResult::earliest`.
abbrev pub earliest : LocalResult → Option DateTime
earliest (single t) = some t
earliest (ambiguous first second) = some first
earliest gap = none

-- A `Tz`. A wall-clock time is a number of nanoseconds since the midnight from which instants count.
pub record Zone : Type 0 where
  pub naive_local : DateTime → ℕ
  pub from_local : ℕ → LocalResult
  pub offset_secs : ℕ → ℤ

abbrev pub minute : ℕ
minute = 60 * nanos

abbrev pub day : ℕ
day = 86400 * nanos

-- `naive - offset`.
abbrev minus_offset : ℕ → ℤ → DateTime
minus_offset naive offset = naive + neg_part offset * nanos - pos_part offset * nanos

-- The steps of the search for the end of a gap, in minutes.
gap_end : Zone → ℕ → List ℕ → DateTime
gap_end z naive [] = minus_offset naive (z.offset_secs naive)
gap_end z naive (mins ∷ rest) =
    let later = gap_end z naive rest in
    elim (earliest (z.from_local (naive + mins * minute))) [ none ↦ later | some t ↦ t ]

abbrev of_local : Zone → ℕ → LocalResult → DateTime
of_local z naive (single t) = t
of_local z naive (ambiguous first second) = first
of_local z naive gap = gap_end z naive (60 ∷ 120 ∷ 180 ∷ 240 ∷ [])

unfoldable pub local_to_utc : Zone → ℕ → DateTime
unfolding gap_end
local_to_utc z naive = of_local z naive (z.from_local naive)

-- `i64::from(rotation_length_secs) / 86_400`, at least 1.
abbrev pub period_days : OnCallLayer → ℕ
period_days layer = max (pos_part layer.rotation_length_secs / 86400) 1

abbrev pub custom_index : OnCallLayer → DateTime → ℕ
custom_index layer at =
    secs_between layer.handoff_at at / max (pos_part layer.rotation_length_secs) 1

-- `%` and `/` by a day split a wall-clock time into its time of day and its date.
unfoldable pub calendar_index : OnCallLayer → Zone → DateTime → ℕ
calendar_index layer z at =
    let anchor_local = z.naive_local layer.handoff_at in
    let now_date = z.naive_local at / day in
    let anchor_date = anchor_local / day in
    let handoff_today = local_to_utc z (now_date * day + anchor_local % day) in
    if ltb now_date anchor_date
    then 0
    else (now_date - anchor_date - (if ltb at handoff_today then 1 else 0)) / period_days layer

unfoldable pub rotation_index : OnCallLayer → Zone → DateTime → ℕ
unfolding calendar_index
rotation_index layer z at = elim layer.rotation_type [
  | custom ↦ custom_index layer at
  | daily ↦ calendar_index layer z at
  | weekly ↦ calendar_index layer z at
]

unfoldable pub by_position : List OnCallParticipant → List OnCallParticipant
by_position ps = sort_by (λ a b. ltb_ℤ a.position b.position) ps

-- The participant in slot `idx`, modulo their number. A slot out of range, a panic in the source, is
-- `none`.
unfoldable pub in_slot : List OnCallParticipant → ℕ → Option Uuid
unfolding by_position
in_slot [] idx = none
in_slot (p ∷ ps) idx = elim (get_elem? (by_position (p ∷ ps)) (idx % length (p ∷ ps))) [
  | none ↦ none
  | some q ↦ some q.user_id
]

unfoldable pub layer_on_call : OnCallLayer → Zone → DateTime → Option Uuid
unfolding in_slot rotation_index
layer_on_call layer z at = in_slot layer.participants (rotation_index layer z at)
