-- ===== src/Domain/Incident/Downtime.antt =====
-- Durations of incidents and the confirmed downtime of a window: `elapsed_at` and
-- `confirmed_downtime_secs` in crates/core/src/domain/incident.rs.
use statuspage.Base.{
  ℕ, ◌+◌, ◌-◌, ◌*◌, ◌/◌, ◌≤◌, ◌≡◌, min, max, Option, unwrap_or, List, [], ◌∷◌, arith, length,
}
use statuspage.Domain.Time.{DateTime, nanos, secs_between}
use statuspage.Domain.Incident.{Incident}

-- The `chrono::Duration` is never negative: it is given in nanoseconds.
unfoldable pub elapsed_at : DateTime → Option DateTime → DateTime → ℕ
elapsed_at started_at ended_at now = unwrap_or ended_at now - started_at

-- The overlap of one incident with the window, in whole seconds.
abbrev pub overlap_secs : DateTime → DateTime → DateTime → Incident → ℕ
overlap_secs from to now i =
    secs_between (max i.started_at from) (min (unwrap_or i.ended_at now) to)

unfoldable pub confirmed_downtime_secs : List Incident → DateTime → DateTime → DateTime → ℕ
confirmed_downtime_secs [] from to now = 0
confirmed_downtime_secs (i ∷ is) from to now =
    overlap_secs from to now i + confirmed_downtime_secs is from to now

-- Of an incident inside the window the overlap is how long it has lasted.
pub overlap-elapsed :
    (from to now : DateTime) (i : Incident)
    → from ≤ i.started_at
    → unwrap_or i.ended_at now ≤ to
    → overlap_secs from to now i ≡ elapsed_at i.started_at i.ended_at now / nanos
unfolding elapsed_at
overlap-elapsed from to now i h k = omega arith

-- The incidents follow one another: each starts when the one before has ended, the first at `t` or
-- later, and none ends before it starts.
abbrev pub Consecutive : DateTime → DateTime → List Incident → Type 0
Consecutive now t [] = Unit
Consecutive now t (i ∷ is) =
    (t ≤ i.started_at)
    × (i.started_at ≤ unwrap_or i.ended_at now)
    × Consecutive now (unwrap_or i.ended_at now) is

downtime_from :
    (is : List Incident) (from to now t : DateTime)
    → Consecutive now t is
    → confirmed_downtime_secs is from to now ≤ secs_between (max t from) to
unfolding confirmed_downtime_secs
downtime_from [] from to now t h = omega arith
downtime_from (i ∷ is) from to now t h =
    omega (arith, downtime_from is from to now (unwrap_or i.ended_at now) h.2, h.0, h.1)

-- Incidents of one target that follow one another never add up to more downtime than the window is
-- long.
pub confirmed_downtime-le-window :
    (is : List Incident) (from to now : DateTime)
    → Consecutive now 0 is
    → confirmed_downtime_secs is from to now ≤ secs_between from to
confirmed_downtime-le-window is from to now h = omega (arith, downtime_from is from to now 0 h)

-- Any incidents, overlapping ones too: each adds at most the window.
pub confirmed_downtime-le-count :
    (is : List Incident) (from to now : DateTime)
    → confirmed_downtime_secs is from to now ≤ length is * secs_between from to
unfolding confirmed_downtime_secs
confirmed_downtime-le-count [] from to now = omega arith
confirmed_downtime-le-count (i ∷ is) from to now =
    omega (arith, confirmed_downtime-le-count is from to now)

-- Cutting the window in two loses at most the fraction of a second in which each incident is cut.
pub confirmed_downtime_split :
    (is : List Incident) (from mid to now : DateTime)
    → from ≤ mid
    → mid ≤ to
    → (confirmed_downtime_secs is from mid now + confirmed_downtime_secs is mid to now
        ≤ confirmed_downtime_secs is from to now)
      × (confirmed_downtime_secs is from to now
          ≤ confirmed_downtime_secs is from mid now
            + confirmed_downtime_secs is mid to now
            + length is)
unfolding confirmed_downtime_secs
confirmed_downtime_split [] from mid to now h k = omega arith
confirmed_downtime_split (i ∷ is) from mid to now h k =
    omega (arith, confirmed_downtime_split is from mid to now h k)
