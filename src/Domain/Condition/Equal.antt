-- ===== src/Domain/Condition/Equal.antt =====
-- What `==`, `!=` and `pat` of crates/core/src/domain/condition_dsl.rs say of texts.
use statuspage.Base.{
  ◌≡◌, ◌≢◌, ◌↔◌, ◌⊎◌, refl, sym, ap, ◌∙◌, arith, Bool, true, false, not, ◌||◌, none, some,
  unwrap_or, [], ◌∷◌, Bool-cases, inl, inr,
}
use statuspage.Domain.Condition.Glob.{Bytes, globs}
use statuspage.Domain.Condition.Backtrack.{NoStar}
use statuspage.Domain.Condition.Decides.{glob_match-globs}
use statuspage.Domain.Condition.Expr.{
  Comparator, equal, not_equal, ValueRef, compare, pattern_of, Libraries, ConditionContext,
  resolve_value, compare_values, compare_texts, evaluate, same_text, glob_match,
}

same_text_iff : (s t : Bytes) → (same_text s t ≡ true) ↔ (s ≡ t)
unfolding same_text
same_text_iff [] [] = ((λ _. refl), λ _. refl)
same_text_iff [] (d ∷ t) = ((λ h. cc), λ h. cc)
same_text_iff (c ∷ s) [] = ((λ h. cc), λ h. cc)
same_text_iff (c ∷ s) (d ∷ t) =
    let ih = same_text_iff s t in
    (
      (λ h.
          let head : c ≡ d = ground (arith, h) in
          let tail : s ≡ t = ih.0 (ground (arith, h)) in cc),
      λ h.
          let head : c ≡ d = cc in
          let tail : same_text s t ≡ true = ih.1 (cc) in ground (arith, head, tail),
    )

either : (a b : Bool) → a || b ≡ true → (a ≡ true) ⊎ (b ≡ true)
either true b h = inl refl
either false b h = inr h

or_left : (a b : Bool) → a ≡ true → a || b ≡ true
or_left a b h = ground arith

or_behind : (a b : Bool) → b ≡ true → a || b ≡ true
or_behind a b h = ground arith

glob_match_clean : (p t : Bytes) → NoStar t → glob_match p t ≡ globs p t
unfolding glob_match
glob_match_clean p t clean = ap (λ o. unwrap_or o false) (glob_match-globs p t clean)

module _ (lib : Libraries) (ctx : ConditionContext lib) (left right : ValueRef) (l r : Bytes)
    (left_is : resolve_value lib left ctx ≡ some l)
    (right_is : resolve_value lib right ctx ≡ some r) (not_number : lib.parse_f64 l ≡ none) where
  evaluate-texts :
      (op : Comparator) → evaluate lib (compare left op right) ctx ≡ compare_texts l op r
  unfolding evaluate compare_values
  evaluate-texts op = rw (left_is, right_is, compare_values, not_number) refl

  equal-meaning :
      NoStar l
      → (evaluate lib (compare left equal right) ctx ≡ true) ↔ ((l ≡ r) ⊎ (globs r l ≡ true))
  unfolding compare_texts
  equal-meaning clean =
      let reads : evaluate lib (compare left equal right) ctx ≡ (same_text l r || globs r l) =
        evaluate-texts equal ∙ ap (λ b. same_text l r || b) (glob_match_clean r l clean) in
      (
        λ h. elim (either (same_text l r) (globs r l) (sym reads ∙ h)) [
          | inl same ↦ inl ((same_text_iff l r).0 same)
          | inr matched ↦ inr matched
        ],
        elim [
          | inl same ↦ reads ∙ or_left (same_text l r) (globs r l) ((same_text_iff l r).1 same)
          | inr matched ↦ reads ∙ or_behind (same_text l r) (globs r l) matched
        ],
      )

  not_equal-meaning : (evaluate lib (compare left not_equal right) ctx ≡ true) ↔ (l ≢ r)
  unfolding compare_texts
  not_equal-meaning =
      let reads : evaluate lib (compare left not_equal right) ctx ≡ not (same_text l r) =
        evaluate-texts not_equal in
      (
        λ h same.
            let yes_same = (same_text_iff l r).1 same in
            let both : not (same_text l r) ≡ true = sym reads ∙ h in
            absurd (let clash = ap not yes_same in cc),
        λ apart. reads ∙ elim (Bool-cases (same_text l r)) [
          | inl y ↦ absurd (apart ((same_text_iff l r).0 y))
          | inr n ↦ ap not n
        ],
      )

-- Where the left side of a condition is a text that is not a number and holds no star, `==` says that
-- the two texts are equal or that the right one, read as a glob, matches the left one, and `!=` says
-- that the texts differ, matched or not. `pat` says that the glob matches.
pub evaluate-meaning :
    (lib : Libraries) (ctx : ConditionContext lib) (left right : ValueRef) (l r : Bytes)
    → resolve_value lib left ctx ≡ some l
    → resolve_value lib right ctx ≡ some r
    → lib.parse_f64 l ≡ none
    → NoStar l
    → ((evaluate lib (compare left equal right) ctx ≡ true) ↔ ((l ≡ r) ⊎ (globs r l ≡ true)))
      × ((evaluate lib (compare left not_equal right) ctx ≡ true) ↔ (l ≢ r))
      × (evaluate lib (pattern_of left r) ctx ≡ globs r l)
unfolding evaluate
evaluate-meaning lib ctx left right l r left_is right_is not_number clean = (
  equal-meaning lib ctx left right l r left_is right_is not_number clean,
  not_equal-meaning lib ctx left right l r left_is right_is not_number,
  rw left_is (glob_match_clean r l clean),
)
