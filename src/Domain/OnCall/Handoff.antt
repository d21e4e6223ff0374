-- ===== src/Domain/OnCall/Handoff.antt =====
-- When a layer hands off: `rotation_index` of crates/core/src/domain/on_call.rs against the wall clock
-- of its zone.
use statuspage.Base.{
  ℕ, suc, ◌+◌, ◌-◌, ◌*◌, ◌/◌, ◌%◌, ◌≤◌, ◌<◌, true, false, ltb, if◌then◌else◌, ◌≡◌, ◌≢◌, refl, sym,
  ap, ◌∙◌, arith, ◌⊎◌, inl, inr, Bool-cases, pos,
}
use mathlib.Core.Path.{subst}
use native.Mathlib.Nat.{div-eq_of_lt-le, div-div-eq-div-mul, zero-div}
use statuspage.Domain.Time.{DateTime, nanos, secs_between}
use statuspage.Domain.OnCall.Slot.{
  RotationType, daily, weekly, custom, OnCallLayer, single, ambiguous, Zone, day, local_to_utc,
  period_days, custom_index, calendar_index, rotation_index,
}

-- The local date of an instant, as a number of days.
abbrev pub date : Zone → DateTime → ℕ
date z at = z.naive_local at / day

-- Time does not run back over midnight.
abbrev pub IsForward : Zone → Type 0
IsForward z = (t u : DateTime) → t ≤ u → date z t ≤ date z u

-- The instant of the handoff on a local date: at the anchor's time of day.
abbrev pub handoff_on : OnCallLayer → Zone → ℕ → DateTime
handoff_on l z on = local_to_utc z (on * day + z.naive_local l.handoff_at % day)

-- The date on which slot `j` begins.
abbrev pub slot_date : OnCallLayer → Zone → ℕ → ℕ
slot_date l z j = date z l.handoff_at + j * period_days l

late_by : DateTime → DateTime → ℕ
late_by handoff at = if ltb at handoff then 1 else 0

late_by-before : (handoff at : DateTime) → at < handoff → late_by handoff at ≡ 1
unfolding late_by
late_by-before handoff at h = ground arith

late_by-after : (handoff at : DateTime) → handoff ≤ at → late_by handoff at ≡ 0
unfolding late_by
late_by-after handoff at h = ground arith

late_by-le : (handoff at : DateTime) → late_by handoff at ≤ 1
unfolding late_by
late_by-le handoff at = ground arith

-- Days between the dates `x` and `y` after the anchor's, short of the second where today's handoff is
-- not over.
days_between :
    (a d x y late : ℕ)
    → x < y
    → late ≤ 1
    → a + x ≤ d
    → d ≤ a + y
    → (d ≡ a + x → late ≡ 0)
    → (d ≡ a + y → late ≡ 1)
    → (x ≤ d - a - late) × (d - a - late < y)
days_between a d x y late xy small lo hi first last = ground (arith, first, last)

product_step : (j p : ℕ) → 1 ≤ p → j * p < suc j * p
product_step j p h = grind arith

module _ (l : OnCallLayer) (z : Zone) where
  abbrev days_at : DateTime → ℕ
  days_at at = date z at - date z l.handoff_at - late_by (handoff_on l z (date z at)) at

  calendar_index-days :
      (at : DateTime)
      → date z l.handoff_at ≤ date z at
      → calendar_index l z at ≡ days_at at / period_days l
  unfolding calendar_index late_by
  calendar_index-days at h =
      let later : ltb (date z at) (date z l.handoff_at) ≡ false = ground arith in rw later refl

  module _ (at : DateTime) (j : ℕ)
      (here : date z (handoff_on l z (slot_date l z j)) ≡ slot_date l z j)
      (there : date z (handoff_on l z (slot_date l z (suc j))) ≡ slot_date l z (suc j))
      (forward : IsForward z) (begun : handoff_on l z (slot_date l z j) ≤ at)
      (not_over : at < handoff_on l z (slot_date l z (suc j))) where
    from_first : slot_date l z j ≤ date z at
    from_first =
        subst (λ n. n ≤ date z at) here (forward (handoff_on l z (slot_date l z j)) at begun)

    to_last : date z at ≤ slot_date l z (suc j)
    to_last =
        subst (λ n. date z at ≤ n) there
          (forward at (handoff_on l z (slot_date l z (suc j))) (omega (arith, not_over)))

    days_at-bounds : (j * period_days l ≤ days_at at) × (days_at at < suc j * period_days l)
    days_at-bounds =
        days_between (date z l.handoff_at) (date z at) (j * period_days l) (suc j * period_days l)
          (late_by (handoff_on l z (date z at)) at) (product_step j (period_days l) (omega arith))
          (late_by-le (handoff_on l z (date z at)) at) from_first to_last
          (λ e.
            late_by-after (handoff_on l z (date z at)) at
              (subst (λ n. handoff_on l z n ≤ at) (sym e) begun))
          (λ e.
            late_by-before (handoff_on l z (date z at)) at
              (subst (λ n. at < handoff_on l z n) (sym e) not_over))

    calendar_index-slot : calendar_index l z at ≡ j
    calendar_index-slot =
        calendar_index-days at (omega (arith, from_first))
        ∙ div-eq_of_lt-le (period_days l) days_at-bounds.0 (omega (arith, days_at-bounds.1))

-- Neither `daily` nor `weekly` is counted in seconds.
by_calendar :
    (l : OnCallLayer) (z : Zone) (at : DateTime)
    → l.rotation_type ≢ custom
    → rotation_index l z at ≡ calendar_index l z at
unfolding rotation_index
by_calendar l z at = by_cases l.rotation_type refl
  where
    by_cases :
        (r : RotationType)
        → l.rotation_type ≡ r
        → l.rotation_type ≢ custom
        → rotation_index l z at ≡ calendar_index l z at
    by_cases daily e h = rw (e, rotation_index) refl
    by_cases weekly e h = rw (e, rotation_index) refl
    by_cases custom e h = absurd (h e)

-- The instant at which the zone's clocks first show the wall-clock time.
pub record Shows (z : Zone) (wall : ℕ) (at : DateTime) : Type 0 where
  pub first :
      (z.from_local wall ≡ single at)
      ⊎ ((second : DateTime) × (z.from_local wall ≡ ambiguous at second))
  pub shown : z.naive_local at ≡ wall

-- The wall-clock time at which slot `j` begins: the anchor's time of day, `j` periods after its date.
abbrev pub slot_wall : OnCallLayer → Zone → ℕ → ℕ
slot_wall l z j = slot_date l z j * day + z.naive_local l.handoff_at % day

Shows-local : (z : Zone) (wall at : ℕ) → Shows z wall at → local_to_utc z wall ≡ at
unfolding local_to_utc
Shows-local z wall at s = elim s.first [ inl e ↦ rw e refl | inr (second, e) ↦ rw e refl ]

-- Slot `j` of a daily or weekly rotation lasts from the first instant at which the clocks show the
-- anchor's time of day on the local date that lies `j` periods after the anchor's, up to the first
-- instant at which they show it one period later, whatever the zone's offset does between them. The
-- zone's dates must not run back, and its clocks must show those two times.
pub rotation_index-slot :
    (l : OnCallLayer) (z : Zone) (begins ends at : DateTime) (j : ℕ)
    → l.rotation_type ≢ custom
    → IsForward z
    → Shows z (slot_wall l z j) begins
    → Shows z (slot_wall l z (suc j)) ends
    → begins ≤ at
    → at < ends
    → rotation_index l z at ≡ j
rotation_index-slot l z begins ends at j calendar forward start stop begun not_over =
    let from : handoff_on l z (slot_date l z j) ≡ begins =
      Shows-local z (slot_wall l z j) begins start in
    let to : handoff_on l z (slot_date l z (suc j)) ≡ ends =
      Shows-local z (slot_wall l z (suc j)) ends stop in
    by_calendar l z at calendar
    ∙ calendar_index-slot l z at j (ap (date z) from ∙ on_date j begins start)
        (ap (date z) to ∙ on_date (suc j) ends stop) forward (subst (λ t. t ≤ at) (sym from) begun)
        (subst (λ t. at < t) (sym to) not_over)
  where
    on_date : (k : ℕ) (t : DateTime) → Shows z (slot_wall l z k) t → date z t ≡ slot_date l z k
    on_date k t s =
        ap (λ n. n / day) s.shown ∙ whole_days (slot_date l z k) (z.naive_local l.handoff_at)
      where
        whole_days : (n tod : ℕ) → (n * day + tod % day) / day ≡ n
        whole_days n tod = omega arith

-- A zone whose clocks are a constant time ahead of UTC.
abbrev pub IsFixed : ℕ → Zone → Type 0
IsFixed ahead z =
    ((t : DateTime) → z.naive_local t ≡ t + ahead)
    × ((n : ℕ) → ahead ≤ n → z.from_local n ≡ single (n - ahead))

-- Whole days between the instants, read off the calendar.
days_apart :
    (t u ahead : ℕ)
    → (t + ahead) / day ≤ (u + ahead) / day
    → (u + ahead) / day
        - (t + ahead) / day
        - late_by ((u + ahead) / day * day + (t + ahead) % day - ahead) u
      ≡ (u - t) / nanos / 86400
unfolding late_by
days_apart t u ahead h = ground arith

local_single : (z : Zone) (n t : ℕ) → z.from_local n ≡ single t → local_to_utc z n ≡ t
unfolding local_to_utc
local_single z n t e = rw e refl

calendar_index-early :
    (l : OnCallLayer) (z : Zone) (at : DateTime)
    → ltb (date z at) (date z l.handoff_at) ≡ true
    → calendar_index l z at ≡ 0
unfolding calendar_index
calendar_index-early l z at h = rw h refl

module _ (l : OnCallLayer) (z : Zone) (ahead d : ℕ) (fixed : IsFixed ahead z)
    (length_is : l.rotation_length_secs ≡ pos (suc d * 86400)) where
  fixed-handoff :
      (at : DateTime)
      → date z l.handoff_at ≤ date z at
      → handoff_on l z (date z at) ≡ (at + ahead) / day * day + (l.handoff_at + ahead) % day - ahead
  fixed-handoff at h =
      let wall = date z at * day + z.naive_local l.handoff_at % day in
      let shown = fixed.0 l.handoff_at in
      local_single z wall (wall - ahead) (fixed.1 wall (omega (arith, h, shown)))
      ∙ rw (fixed.0 at, fixed.0 l.handoff_at) refl

  period_days-length : period_days l ≡ suc d
  period_days-length = rw length_is (omega arith)

  -- Both count whole days, and divide them by the days of a period.
  days_at-fixed :
      (at : DateTime)
      → date z l.handoff_at ≤ date z at
      → days_at l z at ≡ secs_between l.handoff_at at / 86400
  days_at-fixed at h =
      rw (fixed-handoff at h, fixed.0 at, fixed.0 l.handoff_at)
        (days_apart l.handoff_at at ahead (rw (sym (fixed.0 at), sym (fixed.0 l.handoff_at)) h))

  custom_index-days :
      (at : DateTime) → custom_index l at ≡ secs_between l.handoff_at at / 86400 / suc d
  custom_index-days at =
      rw (length_is, div-div-eq-div-mul (secs_between l.handoff_at at) 86400 (suc d))
        (ap (λ n. secs_between l.handoff_at at / n) (omega arith))

  early_le : (at : DateTime) → ltb (date z at) (date z l.handoff_at) ≡ true → at ≤ l.handoff_at
  early_le at h =
      let there = fixed.0 l.handoff_at in let here = fixed.0 at in ground (arith, here, there)

  calendar-custom : (at : DateTime) → calendar_index l z at ≡ custom_index l at
  calendar-custom at = elim (Bool-cases (ltb (date z at) (date z l.handoff_at))) [
    | inl early ↦
        let none_yet : secs_between l.handoff_at at / 86400 ≡ 0 =
          omega (arith, early_le at early) in
        calendar_index-early l z at early
        ∙ sym (custom_index-days at ∙ (ap (λ n. n / suc d) none_yet ∙ zero-div (suc d)))
    | inr late ↦
        let h : date z l.handoff_at ≤ date z at = ground arith in
        calendar_index-days l z at h
        ∙ (ap (λ n. n / period_days l) (days_at-fixed at h)
            ∙ (ap (λ n. secs_between l.handoff_at at / 86400 / n) period_days-length
                ∙ sym (custom_index-days at)))
  ]

-- In a zone whose clocks are a constant time ahead of UTC, a daily or weekly rotation of a whole number
-- of days hands off exactly when the custom rotation of the same layer and length does.
pub rotation_index-fixed_zone :
    (l : OnCallLayer) (z : Zone) (ahead d : ℕ) (at : DateTime)
    → IsFixed ahead z
    → l.rotation_length_secs ≡ pos (suc d * 86400)
    → l.rotation_type ≢ custom
    → rotation_index l z at ≡ rotation_index (record l { rotation_type = custom }) z at
unfolding rotation_index
rotation_index-fixed_zone l z ahead d at fixed length_is calendar =
    by_calendar l z at calendar ∙ calendar-custom l z ahead d fixed length_is at
