-- ===== src/Domain/Condition/Backtrack.antt =====
-- The loop of `glob_match_bytes` of crates/core/src/domain/condition_dsl.rs goes back to the last star
-- only, and decides nevertheless what a glob means.
use statuspage.Base.{
  ℕ, zero, suc, ◌+◌, ◌*◌, ◌≤◌, ◌<◌, ◌≡◌, refl, sym, ap, ◌∙◌, arith, Bool, true, false, ◌||◌, ◌&&◌,
  ◌==◌, none, some, [], ◌∷◌, length, All, Bool-cases, inl, inr,
}
use mathlib.Core.Path.{subst, fun_ext}
use statuspage.Domain.Condition.Glob.{
  Bytes, star, any_byte, only_stars, Saved, retry, glob_loop, anywhere, first_byte, globs,
}

module _ (p : Bytes) where
  pub globs-star : (t : Bytes) → globs (star ∷ p) t ≡ anywhere (globs p) t
  unfolding globs
  globs-star t = refl

  globs-byte :
      (c : ℕ) (t : Bytes) → (c == star) ≡ false → globs (c ∷ p) t ≡ first_byte c (globs p) t
  unfolding globs
  globs-byte c t h = rw h refl

or_right : {a b : Bool} → a ≡ false → a || b ≡ true → b ≡ true
or_right h k = ground arith

and_right : (a b : Bool) → b ≡ false → a && b ≡ false
and_right a b h = ground arith

-- A star takes more: what matches further behind matches from here.
pub anywhere-tail :
    (m : Bytes → Bool) (b : ℕ) (t : Bytes) → anywhere m t ≡ true → anywhere m (b ∷ t) ≡ true
unfolding anywhere
anywhere-tail m b t h = ground (arith, h)

anywhere-here : (m : Bytes → Bool) (t : Bytes) → m t ≡ true → anywhere m t ≡ true
unfolding anywhere
anywhere-here m [] h = h
anywhere-here m (b ∷ t) h = rw h refl

-- A suffix of a suffix.
anywhere_idem :
    (m : Bytes → Bool) (t : Bytes) → anywhere (anywhere m) t ≡ true → anywhere m t ≡ true
unfolding anywhere
anywhere_idem m [] h = h
anywhere_idem m (b ∷ t) h = elim (Bool-cases (anywhere m (b ∷ t))) [
  | inl y ↦ y
  | inr n ↦ anywhere-tail m b t (anywhere_idem m t (or_right n h))
]

-- Wherever the byte and what follows it match, what follows it matches further behind.
anywhere-first_byte :
    (c : ℕ) (m : Bytes → Bool) (b : ℕ) (t : Bytes)
    → anywhere (first_byte c m) (b ∷ t) ≡ true
    → anywhere m t ≡ true
unfolding anywhere first_byte
anywhere-first_byte c m b t h = elim (Bool-cases (m t)) [
  | inl y ↦ anywhere-here m t y
  | inr n ↦ behind t (or_right (and_right _ _ n) h)
]
  where
    behind : (u : Bytes) → anywhere (first_byte c m) u ≡ true → anywhere m u ≡ true
    behind [] k = absurd (cc)
    behind (d ∷ u) k = elim (Bool-cases (m u)) [
      | inl y ↦ anywhere-tail m d u (anywhere-here m u y)
      | inr n ↦ anywhere-tail m d u (behind u (or_right (and_right _ _ n) k))
    ]

pub only_stars-globs : (p : Bytes) → only_stars p ≡ globs p []
unfolding only_stars globs
only_stars-globs [] = refl
only_stars-globs (c ∷ p) = ground (arith, only_stars-globs p)

-- No star stands in the text.
abbrev pub NoStar : Bytes → Type 0
NoStar = All (λ b. (b == star) ≡ false)

-- What is still to be had from the saved star once the present attempt fails.
unfoldable pub later : Saved → Bool
later none = false
later (some (q, [])) = anywhere (globs q) []
later (some (q, b ∷ s)) = anywhere (globs q) s

-- All that the saved star may still reach is reached from here: the loop may forget it at a new star.
unfoldable pub Covered : Bytes → Bytes → Saved → Type 0
Covered p t saved = later saved ≡ true → anywhere (globs p) t ≡ true

-- `m` bounds the bytes that the star may still take, `k` every pattern in play.
abbrev pub Fits : ℕ → ℕ → Bytes → Saved → Type 0
Fits k m t none = length t ≤ m
Fits k m t (some (q, s)) = (length t ≤ length s) × (length s ≤ m) × (length q ≤ k) × NoStar s

abbrev pub Decides : ℕ → ℕ → Type 0
Decides k fuel =
    (m : ℕ) (p t : Bytes) (saved : Saved)
    → NoStar t
    → Fits k m t saved
    → length p ≤ k
    → m * (k + 1) + length p < fuel
    → Covered p t saved
    → glob_loop fuel p t saved ≡ some (globs p t || later saved)

taken : (q s : Bytes) → globs q s || later (some (q, s)) ≡ anywhere (globs q) s
unfolding later anywhere
taken q [] = ground arith
taken q (b ∷ s) = refl

onward : (q s : Bytes) → Covered q s (some (q, s))
unfolding Covered later
onward q [] h = h
onward q (b ∷ s) h = anywhere-tail (globs q) b s h

pub round_paid : (m k : ℕ) → suc m * (k + 1) ≡ m * (k + 1) + k + 1
round_paid m k = grind arith

-- A mismatch goes on with the saved star.
pub retry-later :
    (k fuel m : ℕ) (b : ℕ) (t : Bytes) (saved : Saved)
    → Decides k fuel
    → Fits k m (b ∷ t) saved
    → m * (k + 1) ≤ fuel
    → retry (glob_loop fuel) saved ≡ some (later saved)
unfolding retry later
retry-later k fuel m b t none ih fits paid = refl
retry-later k fuel m b t (some (q, [])) ih fits paid = absurd (omega (arith, fits.0))
retry-later k fuel zero b t (some (q, d ∷ s)) ih fits paid = absurd (omega (arith, fits.1))
retry-later k fuel (suc m) b t (some (q, d ∷ s)) ih fits paid =
    let short = fits.1 in
    let small = fits.2 in
    ih m q s (some (q, s)) fits.3.1 (omega arith, omega (arith, short), small, fits.3.1) small
      (omega (arith, round_paid m k, small, paid)) (onward q s)
    ∙ ap some (taken q s)

pub Fits-le : (k m : ℕ) (t : Bytes) (saved : Saved) → Fits k m t saved → length t ≤ m
Fits-le k m t none h = h
Fits-le k m t (some (q, s)) h = omega (arith, h.0, h.1)

pub Fits-tail : (k m b : ℕ) (t : Bytes) (saved : Saved) → Fits k m (b ∷ t) saved → Fits k m t saved
Fits-tail k m b t none h = omega (arith, h)
Fits-tail k m b t (some (q, s)) h = (omega (arith, h.0), h.1, h.2, h.3)

pub absorb : (a b : Bool) → (b ≡ true → a ≡ true) → a || b ≡ a
absorb true b h = refl
absorb false true h = sym (h refl)
absorb false false h = refl

module _ (c b : ℕ) (p t : Bytes) (saved : Saved) where
  -- A byte that stands for itself or for any other.
  pub Covered-byte : (c == star) ≡ false → Covered (c ∷ p) (b ∷ t) saved → Covered p t saved
  unfolding Covered
  Covered-byte plain h held =
      anywhere-first_byte c (globs p) b t
        (subst (λ f. anywhere f (b ∷ t) ≡ true) (fun_ext (λ u. globs-byte p c u plain)) (h held))

  pub Covered-star :
      c ≡ star
      → Covered (c ∷ p) (b ∷ t) saved
      → later saved ≡ true
      → anywhere (globs p) (b ∷ t) ≡ true
  unfolding Covered
  Covered-star same h held =
      let moved : anywhere (globs (star ∷ p)) (b ∷ t) ≡ true =
        subst (λ x. anywhere (globs (x ∷ p)) (b ∷ t) ≡ true) same (h held) in
      anywhere_idem (globs p) (b ∷ t)
        (subst (λ f. anywhere f (b ∷ t) ≡ true) (fun_ext (globs-star p)) moved)

  pub loop-match :
      (fuel : ℕ)
      → (c == any_byte || c == b) ≡ true
      → glob_loop (suc fuel) (c ∷ p) (b ∷ t) saved ≡ glob_loop fuel p t saved
  unfolding glob_loop
  loop-match fuel hit = rw hit refl

  pub loop-star :
      (fuel : ℕ)
      → (c == any_byte || c == b) ≡ false
      → (c == star) ≡ true
      → glob_loop (suc fuel) (c ∷ p) (b ∷ t) saved ≡ glob_loop fuel p (b ∷ t) (some (p, b ∷ t))
  unfolding glob_loop
  loop-star fuel miss starred = rw (miss, starred) refl

  pub loop-retry :
      (fuel : ℕ)
      → (c == any_byte || c == b) ≡ false
      → (c == star) ≡ false
      → glob_loop (suc fuel) (c ∷ p) (b ∷ t) saved ≡ retry (glob_loop fuel) saved
  unfolding glob_loop
  loop-retry fuel miss plain = rw (miss, plain) refl

  pub globs-test :
      (c == star) ≡ false → globs (c ∷ p) (b ∷ t) ≡ ((c == any_byte || c == b) && globs p t)
  unfolding first_byte
  globs-test plain = globs-byte p c (b ∷ t) plain

pub plain_of_hit :
    (c b : ℕ) → (b == star) ≡ false → (c == any_byte || c == b) ≡ true → (c == star) ≡ false
plain_of_hit c b h hit = ground (arith, h, hit)
