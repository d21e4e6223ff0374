-- ===== src/Domain/Time.antt =====
-- Instants and identifiers. `DateTime<Utc>` is the number of nanoseconds since the earliest instant
-- that chrono represents, so every instant is a natural number; the far end of chrono's range, where
-- its additions panic, is not modelled. `Uuid` is its 128-bit value.
use statuspage.Base.{ℕ, ◌-◌, ◌/◌, leb, ltb, Bool, ◌&&◌}

abbrev pub Uuid : Type 0
Uuid = ℕ

abbrev pub DateTime : Type 0
DateTime = ℕ

abbrev pub nanos : ℕ
nanos = 1000000000

-- `(end - start).num_seconds().max(0)`: whole seconds, and 0 where `end` comes first.
abbrev pub secs_between : DateTime → DateTime → ℕ
secs_between start end = (end - start) / nanos

-- `starts_at <= now && ends_at > now`.
abbrev pub in_window : DateTime → DateTime → DateTime → Bool
in_window starts_at ends_at now = leb starts_at now && ltb now ends_at
