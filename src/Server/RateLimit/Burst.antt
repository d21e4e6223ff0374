-- ===== src/Server/RateLimit/Burst.antt =====
-- The first burst of an address: bin/status-server/src/rate_limit.rs.
use statuspage.Base.{
  ℕ, suc, zero, ◌-◌, ◌*◌, ◌^◌, ◌≤◌, ◌<◌, min, max, ◌≡◌, refl, sym, ap, ◌∙◌, arith, leb, true, false,
  none, unwrap_or,
}
use statuspage.Base.Dict.{get, insert, get-insert_self}
use statuspage.Server.RateLimit.{
  Floats, Instant, Bucket, LimiterConfig, IpRateLimiter, CheckOutcome, allow, deny, check, spend,
  refilled, retry_after, config_from_per_minute,
}

-- Floating-point numbers are exact on whole numbers below 2^53, and no time refills nothing, at the rate
-- of any `u32`.
pub record IsExact {F : Type 0} (f : Floats F) : Type 0 where
  pub sub_one : (n : ℕ) → n < 2 ^ 52 → f.sub (f.whole (suc n)) (f.whole 1) ≡ f.whole n
  pub product : (m n : ℕ) → m * n < 2 ^ 53 → f.mul (f.whole m) (f.whole n) ≡ f.whole (m * n)
  pub maximum :
      (m n : ℕ) → m < 2 ^ 53 → n < 2 ^ 53 → f.max_of (f.whole m) (f.whole n) ≡ f.whole (max m n)
  pub minimum :
      (m n : ℕ) → m < 2 ^ 53 → n < 2 ^ 53 → f.min_of (f.whole m) (f.whole n) ≡ f.whole (min m n)
  pub compared : (m n : ℕ) → m < 2 ^ 53 → n < 2 ^ 53 → f.at_least (f.whole m) (f.whole n) ≡ leb n m
  pub no_time :
      (per_minute n : ℕ)
      → per_minute < 2 ^ 32
      → n < 2 ^ 53
      → f.mul_add (f.as_secs 0) (f.div (f.whole per_minute) (f.whole 60)) (f.whole n) ≡ f.whole n

-- How many of `n` requests of the address at the same instant are allowed.
unfoldable pub burst : {F : Type 0} → Floats F → Instant → ℕ → ℕ → IpRateLimiter F → ℕ
burst f now ip zero l = 0
burst f now ip (suc n) l =
    let done = check f now ip l in
    let rest = burst f now ip n done.0 in elim done.1 [ allow ↦ suc rest | deny secs ↦ rest ]

module _ {F : Type 0} (f : Floats F) (exact : IsExact f) (now : Instant) (ip per_minute : ℕ)
    (small : per_minute < 2 ^ 32) where
  abbrev config : LimiterConfig F
  config = config_from_per_minute f per_minute

  capacity_whole : config.capacity ≡ f.whole (max per_minute 1 * 2)
  unfolding config_from_per_minute
  capacity_whole =
      rw (exact.maximum per_minute 1 (omega arith) (omega arith))
        (exact.product (max per_minute 1) 2 (omega arith))

  -- The bucket that a check works on holds `level` whole tokens and was refilled just now.
  record Holds (l : IpRateLimiter F) (level : ℕ) : Type 0 where
    pub cfg : l.cfg ≡ config
    pub bucket :
        unwrap_or (get ip l.buckets) (record { tokens = l.cfg.capacity; last_refill = now })
        ≡ record { tokens = f.whole level; last_refill = now }
    pub within : level ≤ max per_minute 1 * 2

  level_kept :
      (level : ℕ)
      → level ≤ max per_minute 1 * 2
      → refilled f config now (record { tokens = f.whole level; last_refill = now }) ≡ f.whole level
  unfolding refilled config_from_per_minute
  level_kept level h =
      let no_wait : now - now ≡ 0 = omega arith in
      let still = exact.no_time per_minute level small (omega arith) in
      let capped = exact.minimum level (max per_minute 1 * 2) (omega arith) (omega arith) in
      let least : min level (max per_minute 1 * 2) ≡ level = omega arith in
      rw (refilled, no_wait, still)
        (ap (f.min_of (f.whole level)) capacity_whole ∙ (capped ∙ ap f.whole least))

  check-Holds :
      (l : IpRateLimiter F) (level : ℕ)
      → Holds l level
      → check f now ip l ≡ (
        record l { buckets = insert ip (spend f config now (f.whole level)).0 l.buckets },
        (spend f config now (f.whole level)).1,
      )
  unfolding check
  check-Holds l level h =
      let same : refilled f l.cfg now
            (unwrap_or (get ip l.buckets) (record { tokens = l.cfg.capacity; last_refill = now }))
          ≡ f.whole level =
        ap (refilled f l.cfg now) h.bucket
        ∙ (ap (λ c. refilled f c now (record { tokens = f.whole level; last_refill = now })) h.cfg
            ∙ level_kept level h.within) in
      ap (λ (s : Bucket F × CheckOutcome). (record l { buckets = insert ip s.0 l.buckets }, s.1))
        (ap (spend f l.cfg now) same ∙ ap (λ c. spend f c now (f.whole level)) h.cfg)

  spend_some :
      (n : ℕ)
      → suc n ≤ max per_minute 1 * 2
      → spend f config now (f.whole (suc n))
        ≡ (record { tokens = f.whole n; last_refill = now }, allow)
  unfolding spend
  spend_some n h =
      let enough : f.at_least (f.whole (suc n)) (f.whole 1) ≡ true =
        exact.compared (suc n) 1 (omega arith) (omega arith) ∙ ground arith in
      rw (enough, exact.sub_one n (omega arith)) refl

  spend_none :
      spend f config now (f.whole 0)
      ≡ (record { tokens = f.whole 0; last_refill = now }, deny (retry_after f config (f.whole 0)))
  unfolding spend
  spend_none =
      let few : f.at_least (f.whole 0) (f.whole 1) ≡ false =
        exact.compared 0 1 (omega arith) (omega arith) in
      rw few refl

  stored_Holds :
      (l : IpRateLimiter F) (level : ℕ)
      → l.cfg ≡ config
      → level ≤ max per_minute 1 * 2
      → Holds
          (record l {
            buckets = insert ip (record { tokens = f.whole level; last_refill = now }) l.buckets;
          })
          level
  stored_Holds l level cfg h = record {
    cfg = cfg;
    bucket =
        ap (λ b. unwrap_or b (record { tokens = l.cfg.capacity; last_refill = now }))
          (get-insert_self ip (record { tokens = f.whole level; last_refill = now }) l.buckets);
    within = h;
  }

  -- The limiter after a check that wrote this bucket.
  abbrev written : Bucket F × CheckOutcome → IpRateLimiter F → IpRateLimiter F
  written s l = record l { buckets = insert ip s.0 l.buckets }

  counted : ℕ → IpRateLimiter F × CheckOutcome → ℕ
  counted n d = let rest = burst f now ip n d.0 in elim d.1 [ allow ↦ suc rest | deny secs ↦ rest ]

  burst_step :
      (n : ℕ) (l : IpRateLimiter F) (level : ℕ) (s : Bucket F × CheckOutcome)
      → Holds l level
      → spend f config now (f.whole level) ≡ s
      → burst f now ip (suc n) l ≡ counted n (written s l, s.1)
  unfolding burst counted
  burst_step n l level s h e =
      ap (counted n) (check-Holds l level h) ∙ ap (λ t. counted n (written t l, t.1)) e

  burst_held :
      (n : ℕ) (l : IpRateLimiter F) (level : ℕ) → Holds l level → burst f now ip n l ≡ min n level
  unfolding burst counted
  burst_held zero l level h = omega arith
  burst_held (suc n) l zero h =
      let s : Bucket F × CheckOutcome = (
        record { tokens = f.whole 0; last_refill = now },
        deny (retry_after f config (f.whole 0)),
      ) in
      let rest : burst f now ip n (written s l) ≡ min n 0 =
        burst_held n (written s l) 0 (stored_Holds l 0 h.cfg h.within) in
      burst_step n l 0 s h spend_none ∙ (rest ∙ omega arith)
  burst_held (suc n) l (suc level) h =
      let s : Bucket F × CheckOutcome =
        (record { tokens = f.whole level; last_refill = now }, allow) in
      let rest : burst f now ip n (written s l) ≡ min n level =
        burst_held n (written s l) level (stored_Holds l level h.cfg (omega (arith, h.within))) in
      burst_step n l (suc level) s h (spend_some level h.within) ∙ (ap suc rest ∙ omega arith)

-- Of any number of requests that an address without a bucket makes at one instant, twice the quota of a
-- minute are allowed, or all if there are fewer. The limiter has the configuration of a quota that is not
-- zero and fits 32 bits, and floating-point numbers are exact on small whole numbers.
pub burst-capacity :
    {F : Type 0} (f : Floats F) (now : Instant) (ip per_minute n : ℕ) (l : IpRateLimiter F)
    → IsExact f
    → 1 ≤ per_minute
    → per_minute < 2 ^ 32
    → l.cfg ≡ config_from_per_minute f per_minute
    → get ip l.buckets ≡ none
    → burst f now ip n l ≡ min n (2 * per_minute)
burst-capacity f now ip per_minute n l exact some_quota small cfg no_bucket =
    let full : 2 * per_minute ≡ max per_minute 1 * 2 = omega arith in
    let fresh : Bucket _ = record { tokens = l.cfg.capacity; last_refill = now } in
    let starts =
      ap (λ b. unwrap_or b fresh) no_bucket
      ∙ ap (λ t. record { tokens = t; last_refill = now })
          (ap (λ c. c.capacity) cfg ∙ capacity_whole f exact now ip per_minute small) in
    burst_held f exact now ip per_minute small n l (max per_minute 1 * 2)
      (record { cfg = cfg; bucket = starts; within = omega arith })
    ∙ ap (min n) (sym full)
