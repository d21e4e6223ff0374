-- ===== src/Domain/Condition/Decides.antt =====
-- What `glob_match_bytes` of crates/core/src/domain/condition_dsl.rs decides.
use statuspage.Base.{
  ℕ, zero, suc, ◌+◌, ◌*◌, ◌≡◌, sym, ap, ◌∙◌, arith, true, false, ◌||◌, ◌&&◌, ◌==◌, none, some, [],
  ◌∷◌, length, Bool-cases, inl, inr, ==_iff,
}
use statuspage.Domain.Condition.Glob.{
  Bytes, Saved, star, any_byte, retry, glob_loop, glob_match_bytes, anywhere, globs,
}
use statuspage.Domain.Condition.Backtrack.{
  NoStar, later, Covered, Fits-le, Fits-tail, Decides, absorb, retry-later, only_stars-globs,
  Covered-byte, Covered-star, loop-match, loop-star, loop-retry, globs-test, globs-star,
  plain_of_hit, anywhere-tail,
}

globs-hit :
    (c b : ℕ) (p t : Bytes)
    → (c == star) ≡ false
    → (c == any_byte || c == b) ≡ true
    → globs (c ∷ p) (b ∷ t) ≡ globs p t
globs-hit c b p t plain hit = globs-test c b p t none plain ∙ ap (λ x. x && globs p t) hit

globs-miss :
    (c b : ℕ) (p t : Bytes)
    → (c == star) ≡ false
    → (c == any_byte || c == b) ≡ false
    → globs (c ∷ p) (b ∷ t) ≡ false
globs-miss c b p t plain miss = globs-test c b p t none plain ∙ ap (λ x. x && globs p t) miss

loop-end :
    (fuel : ℕ) (p : Bytes) (saved : Saved)
    → Covered p [] saved
    → glob_loop (suc fuel) p [] saved ≡ some (globs p [] || later saved)
unfolding glob_loop Covered anywhere
loop-end fuel p saved covered =
    ap some (only_stars-globs p ∙ sym (absorb (globs p []) (later saved) covered))

-- A new star, after which the one before is not needed again.
star-later :
    (c b : ℕ) (p t : Bytes) (saved : Saved)
    → c ≡ star
    → Covered (c ∷ p) (b ∷ t) saved
    → (globs p (b ∷ t) || later (some (p, b ∷ t))) ≡ (globs (c ∷ p) (b ∷ t) || later saved)
unfolding later anywhere
star-later c b p t saved same covered =
    let whole : globs (c ∷ p) (b ∷ t) ≡ anywhere (globs p) (b ∷ t) =
      ap (λ x. globs (x ∷ p) (b ∷ t)) same ∙ globs-star p (b ∷ t) in
    sym (
      ap (λ x. x || later saved) whole
      ∙ absorb (anywhere (globs p) (b ∷ t)) (later saved) (Covered-star c b p t saved same covered))

new-Covered : (b : ℕ) (p t : Bytes) → Covered p (b ∷ t) (some (p, b ∷ t))
unfolding Covered later
new-Covered b p t h = anywhere-tail (globs p) b t h

glob_loop-Decides : (k fuel : ℕ) → Decides k fuel
unfolding glob_loop retry globs later
glob_loop-Decides k zero m p t saved clean fits short paid covered = absurd (omega (arith, paid))
glob_loop-Decides k (suc fuel) m p [] saved clean fits short paid covered =
    loop-end fuel p saved covered
glob_loop-Decides k (suc fuel) m [] (b ∷ t) saved clean fits short paid covered =
    retry-later k fuel m b t saved (glob_loop-Decides k fuel) fits (omega (arith, paid))
glob_loop-Decides k (suc fuel) m (c ∷ p) (b ∷ t) saved clean fits short paid covered =
    elim (Bool-cases (c == any_byte || c == b)) [
      | inl hit ↦
          let plain = plain_of_hit c b clean.0 hit in
          loop-match c b p t saved fuel hit
          ∙ (glob_loop-Decides k fuel m p t saved clean.1 (Fits-tail k m b t saved fits)
                (omega (arith, short)) (omega (arith, paid))
                (Covered-byte c b p t saved plain covered)
              ∙ ap (λ x. some (x || later saved)) (sym (globs-hit c b p t plain hit)))
      | inr miss ↦ elim (Bool-cases (c == star)) [
        | inl starred ↦
            let rest = Fits-le k m (b ∷ t) saved fits in
            loop-star c b p t saved fuel miss starred
            ∙ (glob_loop-Decides k fuel m p (b ∷ t) (some (p, b ∷ t)) clean
                  (omega arith, rest, omega (arith, short), clean) (omega (arith, short))
                  (omega (arith, paid)) (new-Covered b p t)
                ∙ ap some (star-later c b p t saved ((==_iff c star).0 starred) covered))
        | inr plain ↦
            loop-retry c b p t saved fuel miss plain
            ∙ (retry-later k fuel m b t saved (glob_loop-Decides k fuel) fits (omega (arith, paid))
                ∙ ap (λ x. some (x || later saved)) (sym (globs-miss c b p t plain miss)))
      ]
    ]

-- On a text without stars the loop ends within its fuel, and finds a match exactly where the glob
-- matches the text.
pub glob_match-globs :
    (pattern text : Bytes) → NoStar text → glob_match_bytes pattern text ≡ some (globs pattern text)
unfolding glob_match_bytes Covered later
glob_match-globs pattern text clean =
    glob_loop-Decides (length pattern) (length text * (length pattern + 1) + length pattern + 1)
      (length text) pattern text none clean (omega arith) (omega arith) (omega arith) (λ h. cc)
    ∙ ap some (absorb (globs pattern text) false (λ h. cc))

-- Where both the text and the pattern begin with a star and the pattern asks for one byte more, that
-- the text has only later, the glob matches and the loop says that it does not.
pub glob_match-literal_star :
    (b c : ℕ)
    → (c == star) ≡ false
    → (c == any_byte) ≡ false
    → (c == b) ≡ false
    → (globs (star ∷ c ∷ []) (star ∷ b ∷ c ∷ []) ≡ true)
      × (glob_match_bytes (star ∷ c ∷ []) (star ∷ b ∷ c ∷ []) ≡ some false)
unfolding glob_match_bytes glob_loop globs
glob_match-literal_star b c plain one other = (ground arith, ground arith)
