-- ===== src/Server/RateLimit/Isolated.antt =====
-- One address does not spend another's tokens: bin/status-server/src/rate_limit.rs.
use statuspage.Base.{
  ℕ, ◌-◌, ◌≡◌, refl, sym, ap, ◌∙◌, arith, false, ltb, ◌==◌, if◌then◌else◌, Option, some, unwrap_or,
  List, [], ◌∷◌, Bool-cases, inl, inr,
}
use mathlib.Core.Path.{subst}
use statuspage.Base.Dict.{
  get, insert, get-insert, get-insert_self, get-retain, passing, IsMap, insert-IsMap, retain-IsMap,
}
use statuspage.Server.RateLimit.{
  Floats, Instant, Bucket, LimiterConfig, IpRateLimiter, CheckOutcome, check, evict_idle, spend,
  refilled,
}

-- A request from an address, or an eviction by the janitor.
pub data Event : Type 0 where
  request : Instant → ℕ → Event
  evict : Instant → ℕ → Event

-- Only the requests of the address, and the evictions.
unfoldable pub own : ℕ → List Event → List Event
own ip [] = []
own ip (request now from ∷ events) =
    let rest = own ip events in if from == ip then request now from ∷ rest else rest
own ip (evict now threshold ∷ events) = evict now threshold ∷ own ip events

module _ {F : Type 0} (f : Floats F) where
  -- What the requests of the address are answered.
  unfoldable pub outcomes : ℕ → List Event → IpRateLimiter F → List CheckOutcome
  outcomes ip [] l = []
  outcomes ip (request now from ∷ events) l =
      let done = check f now from l in
      let rest = outcomes ip events done.0 in if from == ip then done.1 ∷ rest else rest
  outcomes ip (evict now threshold ∷ events) l = outcomes ip events (evict_idle f now threshold l).0

  -- The limiters have the same configuration and the same bucket of the address.
  record Agrees (ip : ℕ) (l k : IpRateLimiter F) : Type 0 where
    pub cfg : l.cfg ≡ k.cfg
    pub bucket : get ip l.buckets ≡ get ip k.buckets
    pub left_map : IsMap l.buckets
    pub right_map : IsMap k.buckets

  -- What a check writes and answers, from the configuration and the bucket.
  spent_by : Instant → LimiterConfig F → Option (Bucket F) → Bucket F × CheckOutcome
  spent_by now cfg b =
      spend f cfg now
        (refilled f cfg now (unwrap_or b (record { tokens = cfg.capacity; last_refill = now })))

  check-spent_by :
      (now : Instant) (ip : ℕ) (l : IpRateLimiter F)
      → check f now ip l ≡ (
        record l { buckets = insert ip (spent_by now l.cfg (get ip l.buckets)).0 l.buckets },
        (spent_by now l.cfg (get ip l.buckets)).1,
      )
  unfolding check spent_by
  check-spent_by now ip l = refl

  module _ (ip : ℕ) (l k : IpRateLimiter F) (h : Agrees ip l k) where
    same_answer : (now : Instant) → (check f now ip l).1 ≡ (check f now ip k).1
    same_answer now = rw (check-spent_by now ip l, check-spent_by now ip k, h.cfg, h.bucket) refl

    own_check : (now : Instant) → Agrees ip (check f now ip l).0 (check f now ip k).0
    own_check now =
        let a = spent_by now l.cfg (get ip l.buckets) in
        let b = spent_by now k.cfg (get ip k.buckets) in
        let same : a.0 ≡ b.0 = rw (h.cfg, h.bucket) refl in
        rw (check-spent_by now ip l, check-spent_by now ip k)
          (record {
            cfg = h.cfg;
            bucket =
                get-insert_self ip a.0 l.buckets
                ∙ (ap some same ∙ sym (get-insert_self ip b.0 k.buckets));
            left_map = insert-IsMap ip a.0 l.buckets h.left_map;
            right_map = insert-IsMap ip b.0 k.buckets h.right_map;
          })

    other_check :
        (now : Instant) (from : ℕ) → (from == ip) ≡ false → Agrees ip (check f now from l).0 k
    other_check now from apart =
        let a = spent_by now l.cfg (get from l.buckets) in
        rw (check-spent_by now from l) (record {
          cfg = h.cfg;
          bucket = rw (get-insert from ip a.0 l.buckets, apart) h.bucket;
          left_map = insert-IsMap from a.0 l.buckets h.left_map;
          right_map = h.right_map;
        })

    both_evict :
        (now : Instant) (threshold : ℕ)
        → Agrees ip (evict_idle f now threshold l).0 (evict_idle f now threshold k).0
    unfolding evict_idle
    both_evict now threshold =
        let fresh = λ (b : Bucket F). ltb (now - b.last_refill) threshold in
        record {
          cfg = h.cfg;
          bucket =
              get-retain fresh ip l.buckets h.left_map
              ∙ (ap (passing fresh) h.bucket ∙ sym (get-retain fresh ip k.buckets h.right_map));
          left_map = retain-IsMap fresh l.buckets h.left_map;
          right_map = retain-IsMap fresh k.buckets h.right_map;
        }

  outcomes-Agrees :
      (ip : ℕ) (events : List Event) (l k : IpRateLimiter F)
      → Agrees ip l k
      → outcomes ip events l ≡ outcomes ip (own ip events) k
  unfolding outcomes own
  outcomes-Agrees ip [] l k h = refl
  outcomes-Agrees ip (evict now threshold ∷ events) l k h =
      outcomes-Agrees ip events (evict_idle f now threshold l).0 (evict_idle f now threshold k).0
        (both_evict ip l k h now threshold)
  outcomes-Agrees ip (request now from ∷ events) l k h = elim (Bool-cases (from == ip)) [
    | inl y ↦
        let same : from ≡ ip = ground arith in
        rw (y, outcomes, y)
          (subst
            (λ n.
              (check f now n l).1 ∷ outcomes ip events (check f now n l).0
              ≡ (check f now n k).1 ∷ outcomes ip (own ip events) (check f now n k).0)
            (sym same)
            (let answer = same_answer ip l k h now in
              let rest =
                outcomes-Agrees ip events (check f now ip l).0 (check f now ip k).0
                  (own_check ip l k h now) in
              cc (answer, rest)))
    | inr n ↦
        rw n (outcomes-Agrees ip events (check f now from l).0 k (other_check ip l k h now from n))
  ]

  -- Whatever the other addresses request, and however floating-point numbers are rounded, the requests
  -- of an address are answered as if they and the evictions were all there is, if the limiter
  -- starts with at most one bucket for an address.
  pub outcomes-own :
      (ip : ℕ) (events : List Event) (l : IpRateLimiter F)
      → IsMap l.buckets
      → outcomes ip events l ≡ outcomes ip (own ip events) l
  outcomes-own ip events l map =
      outcomes-Agrees ip events l l
        (record { cfg = refl; bucket = refl; left_map = map; right_map = map })
