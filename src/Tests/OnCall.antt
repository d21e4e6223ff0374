-- ===== src/Tests/OnCall.antt =====
-- The theorems on on-call schedules at concrete inputs.
use statuspage.Base.{
  ℕ, ◌+◌, ◌-◌, ◌*◌, ◌≡◌, refl, ap, arith, inl, ltb, if◌then◌else◌, any, filter, get_elem?, All,
  Among, none, List, [], ◌∷◌, ℤ, pos,
}
use statuspage.Base.Sort.{sort_by}
use statuspage.Domain.Time.{DateTime}
use statuspage.Domain.OnCall.Slot.{
  daily, custom, OnCallLayer, OnCallParticipant, Zone, single, gap, day, minute, local_to_utc,
  layer_on_call, rotation_index,
}
use statuspage.Domain.OnCall.Resolve.{
  Zones, OnCallSchedule, OnCallOverride, covers, resolve_on_call,
}
use statuspage.Domain.OnCall.Overridden.{IsDistinct, Stands, Covers, resolve_on_call-overridden}
use statuspage.Domain.OnCall.Rotation.{Answers, resolve_on_call-rotation}
use statuspage.Domain.OnCall.Handoff.{IsForward, rotation_index-slot, rotation_index-fixed_zone}

abbrev utc : Zone
utc = record { naive_local = λ t. t; from_local = λ n. single n; offset_secs = λ n. pos 0 }

abbrev zones : Zones
zones = record { from_str = λ s. none; utc = utc }

abbrev night_shift : OnCallSchedule
night_shift = record {
  id = 1;
  name = "night";
  timezone = "Nowhere";
  created_at = 0;
  updated_at = 0;
}

abbrev slot_of : ℕ → ℤ → OnCallParticipant
slot_of user position = record { id = user; user_id = user; position = position }

-- Hands off at half past two.
abbrev layer : OnCallLayer
layer = record {
  id = 2;
  name = none;
  rotation_type = daily;
  rotation_length_secs = pos 86400;
  handoff_at = day + 150 * minute;
  layer_order = pos 1;
  created_at = 0;
  participants = slot_of 12 (pos 1) ∷ slot_of 11 (pos 0) ∷ [];
}

abbrev cover : ℕ → DateTime → OnCallOverride
cover user from = record {
  id = user;
  user_id = user;
  starts_at = from;
  ends_at = from + day;
  created_by = none;
  created_at = 0;
}

abbrev swaps : List OnCallOverride
swaps = cover 21 (3 * day) ∷ cover 22 (2 * day + minute) ∷ cover 21 (2 * day) ∷ []

-- The second handoff is over.
second_night : resolve_on_call zones night_shift (layer ∷ []) [] (2 * day + 150 * minute) ≡ 12 ∷ []
unfolding resolve_on_call covers local_to_utc filter sort_by layer_on_call get_elem?
second_night = refl

resolve_on_call-overridden_example :
    let out = resolve_on_call zones night_shift (layer ∷ []) swaps (2 * day + 2 * minute) in
    IsDistinct out
    × All (Stands (2 * day + 2 * minute) swaps) out
    × All (λ o. Covers (2 * day + 2 * minute) o → Among o.user_id out) swaps
unfolding any covers
resolve_on_call-overridden_example =
    resolve_on_call-overridden zones night_shift (layer ∷ []) swaps (2 * day + 2 * minute) refl

resolve_on_call-rotation_example :
    Answers utc (2 * day) (layer ∷ []) (resolve_on_call zones night_shift (layer ∷ []) [] (2 * day))
unfolding any
resolve_on_call-rotation_example =
    resolve_on_call-rotation zones night_shift (layer ∷ []) [] (2 * day) refl

-- Clocks jump from two to three on the second day.
abbrev jump : ℕ
jump = 2 * day + 120 * minute

abbrev spring_local : DateTime → ℕ
spring_local t = if ltb t jump then t else t + 60 * minute

abbrev spring : Zone
spring = record {
  naive_local = spring_local;
  from_local = λ n.
      if ltb n jump
      then single n
      else if ltb n (jump + 60 * minute)
      then gap
      else single (n - 60 * minute);
  offset_secs = λ n. pos 0;
}

spring-IsForward : IsForward spring
spring-IsForward t u h = ground arith

-- The handoff of the third day comes an hour early by UTC.
rotation_index-slot_example : rotation_index layer spring (4 * day + 60 * minute) ≡ 2
rotation_index-slot_example =
    rotation_index-slot layer spring (3 * day + 90 * minute) (4 * day + 90 * minute)
      (4 * day + 60 * minute) 2 (λ e. cc) spring-IsForward
      (record { first = inl refl; shown = refl }) (record { first = inl refl; shown = refl })
      (omega arith) (omega arith)

rotation_index-fixed_zone_example :
    rotation_index layer utc (5 * day)
    ≡ rotation_index (record layer { rotation_type = custom }) utc (5 * day)
rotation_index-fixed_zone_example =
    rotation_index-fixed_zone layer utc 0 0 (5 * day)
      ((λ t. omega arith), (λ n h. ap single (omega arith))) refl (λ e. cc)
