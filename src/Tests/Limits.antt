-- ===== src/Tests/Limits.antt =====
-- The theorems on the rate limiter at concrete inputs.
use statuspage.Base.{ℕ, ◌+◌, ◌-◌, ◌*◌, ◌/◌, min, max, leb, ◌≡◌, refl, arith, List, [], ◌∷◌}
use statuspage.Base.Dict.{get}
use statuspage.Domain.Time.{nanos}
use statuspage.Server.RateLimit.{Floats, IpRateLimiter, config_from_per_minute}
use statuspage.Server.RateLimit.Isolated.{Event, request, evict, own, outcomes, outcomes-own}
use statuspage.Server.RateLimit.Burst.{IsExact, burst, burst-capacity}

-- Whole numbers in place of floating-point ones.
abbrev wholes : Floats ℕ
wholes = record {
  whole = λ n. n;
  sub = λ a b. a - b;
  mul = λ a b. a * b;
  div = λ a b. a / b;
  mul_add = λ a b c. a * b + c;
  min_of = λ a b. min a b;
  max_of = λ a b. max a b;
  at_least = λ a b. leb b a;
  ceil_u64 = λ a. a;
  as_secs = λ t. t / nanos;
}

wholes-IsExact : IsExact wholes
wholes-IsExact = record {
  sub_one = λ n h. omega arith;
  product = λ m n h. refl;
  maximum = λ m n h k. refl;
  minimum = λ m n h k. refl;
  compared = λ m n h k. refl;
  no_time = λ p n h k. omega arith;
}

abbrev limiter : IpRateLimiter ℕ
limiter = record { buckets = []; cfg = config_from_per_minute wholes 60 }

abbrev traffic : List Event
traffic =
    request 0 9
    ∷ request 0 8
    ∷ request 0 9
    ∷ evict (300 * nanos) (120 * nanos)
    ∷ request (301 * nanos) 9
    ∷ []

outcomes-own_example : outcomes wholes 9 traffic limiter ≡ outcomes wholes 9 (own 9 traffic) limiter
outcomes-own_example = outcomes-own wholes 9 traffic limiter tt

burst-capacity_example : burst wholes 5 9 1000 limiter ≡ min 1000 (2 * 60)
unfolding get
burst-capacity_example =
    burst-capacity wholes 5 9 60 1000 limiter wholes-IsExact (omega arith) (omega arith) refl refl
