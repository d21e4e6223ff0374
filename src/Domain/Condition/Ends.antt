-- ===== src/Domain/Condition/Ends.antt =====
-- The loop of `glob_match_bytes` of crates/core/src/domain/condition_dsl.rs ends on every input.
use statuspage.Base.{
  ℕ, zero, suc, ◌+◌, ◌*◌, ◌≤◌, ◌<◌, ◌≡◌, refl, ap, ◌∙◌, arith, true, ◌||◌, ◌==◌, none, some,
  is_some, [], ◌∷◌, length, Bool-cases, inl, inr,
}
use statuspage.Domain.Condition.Glob.{
  Bytes, Saved, star, any_byte, retry, glob_loop, glob_match_bytes,
}
use statuspage.Domain.Condition.Backtrack.{loop-match, loop-star, loop-retry, round_paid}

-- `m` bounds the bytes that the saved star may still take, `k` every pattern in play.
abbrev Bounded : ℕ → ℕ → Bytes → Saved → Type 0
Bounded k m t none = length t ≤ m
Bounded k m t (some (q, s)) = (length t ≤ length s) × (length s ≤ m) × (length q ≤ k)

Bounded-le : (k m : ℕ) (t : Bytes) (saved : Saved) → Bounded k m t saved → length t ≤ m
Bounded-le k m t none h = h
Bounded-le k m t (some (q, s)) h = omega (arith, h.0, h.1)

Bounded-tail :
    (k m b : ℕ) (t : Bytes) (saved : Saved) → Bounded k m (b ∷ t) saved → Bounded k m t saved
Bounded-tail k m b t none h = omega (arith, h)
Bounded-tail k m b t (some (q, s)) h = (omega (arith, h.0), h.1, h.2)

abbrev Ends : ℕ → ℕ → Type 0
Ends k fuel =
    (m : ℕ) (p t : Bytes) (saved : Saved)
    → Bounded k m t saved
    → length p ≤ k
    → m * (k + 1) + length p < fuel
    → is_some (glob_loop fuel p t saved) ≡ true

retry-Ends :
    (k fuel m b : ℕ) (t : Bytes) (saved : Saved)
    → Ends k fuel
    → Bounded k m (b ∷ t) saved
    → m * (k + 1) ≤ fuel
    → is_some (retry (glob_loop fuel) saved) ≡ true
unfolding retry
retry-Ends k fuel m b t none ih h paid = refl
retry-Ends k fuel m b t (some (q, [])) ih h paid = absurd (omega (arith, h.0))
retry-Ends k fuel zero b t (some (q, d ∷ s)) ih h paid = absurd (omega (arith, h.1))
retry-Ends k fuel (suc m) b t (some (q, d ∷ s)) ih h paid =
    let short = h.1 in
    let small = h.2 in
    ih m q s (some (q, s)) (omega arith, omega (arith, short), small) small
      (omega (arith, round_paid m k, small, paid))

glob_loop-Ends : (k fuel : ℕ) → Ends k fuel
unfolding glob_loop
glob_loop-Ends k zero m p t saved h short paid = absurd (omega (arith, paid))
glob_loop-Ends k (suc fuel) m p [] saved h short paid = refl
glob_loop-Ends k (suc fuel) m [] (b ∷ t) saved h short paid =
    retry-Ends k fuel m b t saved (glob_loop-Ends k fuel) h (omega (arith, paid))
glob_loop-Ends k (suc fuel) m (c ∷ p) (b ∷ t) saved h short paid =
    elim (Bool-cases (c == any_byte || c == b)) [
      | inl hit ↦
          ap is_some (loop-match c b p t saved fuel hit)
          ∙ glob_loop-Ends k fuel m p t saved (Bounded-tail k m b t saved h) (omega (arith, short))
              (omega (arith, paid))
      | inr miss ↦ elim (Bool-cases (c == star)) [
        | inl starred ↦
            ap is_some (loop-star c b p t saved fuel miss starred)
            ∙ glob_loop-Ends k fuel m p (b ∷ t) (some (p, b ∷ t))
                (omega arith, Bounded-le k m (b ∷ t) saved h, omega (arith, short))
                (omega (arith, short)) (omega (arith, paid))
        | inr plain ↦
            ap is_some (loop-retry c b p t saved fuel miss plain)
            ∙ retry-Ends k fuel m b t saved (glob_loop-Ends k fuel) h (omega (arith, paid))
      ]
    ]

-- The loop ends within the product of the two lengths, stars in the text or not.
pub glob_match-ends : (pattern text : Bytes) → is_some (glob_match_bytes pattern text) ≡ true
unfolding glob_match_bytes
glob_match-ends pattern text =
    glob_loop-Ends (length pattern) (length text * (length pattern + 1) + length pattern + 1)
      (length text) pattern text none (omega arith) (omega arith) (omega arith)
