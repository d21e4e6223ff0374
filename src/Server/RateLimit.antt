-- ===== src/Server/RateLimit.antt =====
-- The per-address rate limiter: bin/status-server/src/rate_limit.rs. The floating-point numbers of its
-- bucket levels are a parameter. An address is a number.
pub mod Isolated
pub mod Burst
use statuspage.Base.{
  ℕ, ◌-◌, max, Bool, ltb, ◌==◌, if◌then◌else◌, Option, none, some, unwrap_or, List, [], ◌∷◌, length,
}
use statuspage.Base.Dict.{Dict, get, insert, retain}

-- `f64`, by the operations that the limiter uses: `whole` is `f64::from` and the literals; `mul_add a b c` is `a.mul_add(b, c)`, rounded once,
-- and `ceil_u64` is `ceil` and the cast.
pub record Floats (F : Type 0) : Type 0 where
  pub whole : ℕ → F
  pub sub : F → F → F
  pub mul : F → F → F
  pub div : F → F → F
  pub mul_add : F → F → F → F
  pub min_of : F → F → F
  pub max_of : F → F → F
  pub at_least : F → F → Bool
  pub ceil_u64 : F → ℕ
  pub as_secs : ℕ → F

-- `Instant`, and `Duration`: nanoseconds.
abbrev pub Instant : Type 0
Instant = ℕ

pub record Bucket (F : Type 0) : Type 0 where
  pub tokens : F
  pub last_refill : Instant

pub record LimiterConfig (F : Type 0) : Type 0 where
  pub refill_per_sec : F
  pub capacity : F

pub record IpRateLimiter (F : Type 0) : Type 0 where
  pub buckets : Dict (Bucket F)
  pub cfg : LimiterConfig F

-- The delay of a denial is in seconds.
pub data CheckOutcome : Type 0 where
  allow : CheckOutcome
  deny : ℕ → CheckOutcome

module _ {F : Type 0} (f : Floats F) where
  unfoldable pub config_from_per_minute : ℕ → LimiterConfig F
  config_from_per_minute per_minute = record {
    refill_per_sec = f.div (f.whole per_minute) (f.whole 60);
    capacity = f.mul (f.max_of (f.whole per_minute) (f.whole 1)) (f.whole 2);
  }

  unfoldable pub from_per_minute : ℕ → Option (IpRateLimiter F)
  unfolding config_from_per_minute
  from_per_minute per_minute =
      if per_minute == 0
      then none
      else some (record { buckets = []; cfg = config_from_per_minute per_minute })

  -- The level of a bucket at the given time.
  unfoldable pub refilled : LimiterConfig F → Instant → Bucket F → F
  refilled cfg now b =
      let elapsed = f.as_secs (now - b.last_refill) in
      f.min_of (f.mul_add elapsed cfg.refill_per_sec b.tokens) cfg.capacity

  unfoldable pub retry_after : LimiterConfig F → F → ℕ
  retry_after cfg level =
      let deficit = f.sub (f.whole 1) level in max (f.ceil_u64 (f.div deficit cfg.refill_per_sec)) 1

  unfoldable pub spend : LimiterConfig F → Instant → F → Bucket F × CheckOutcome
  unfolding retry_after
  spend cfg now level =
      if f.at_least level (f.whole 1)
      then (record { tokens = f.sub level (f.whole 1); last_refill = now }, allow)
      else (record { tokens = level; last_refill = now }, deny (retry_after cfg level))

  unfoldable pub check : Instant → ℕ → IpRateLimiter F → IpRateLimiter F × CheckOutcome
  unfolding refilled spend
  check now ip l =
      let fresh : Bucket F = record { tokens = l.cfg.capacity; last_refill = now } in
      let bucket = unwrap_or (get ip l.buckets) fresh in
      let done = spend l.cfg now (refilled l.cfg now bucket) in
      (record l { buckets = insert ip done.0 l.buckets }, done.1)

  unfoldable pub evict_idle : Instant → ℕ → IpRateLimiter F → IpRateLimiter F × ℕ
  evict_idle now idle_threshold l =
      let kept = retain (λ b. ltb (now - b.last_refill) idle_threshold) l.buckets in
      (record l { buckets = kept }, length l.buckets - length kept)
