-- ===== src/Domain/Escalation/Order.antt =====
-- A ladder that is not sorted by level: what `next_step` in
-- crates/core/src/domain/escalation_policy.rs then does.
use statuspage.Base.{
  ◌≡◌, ◌≢◌, ◌∙◌, sym, ◌⊎◌, Bool, Option-cases, true, some, List, [], ◌∷◌, ◌++◌, arith, ℤ, ◌<ℤ◌,
  ltb_ℤ, find, All, Bool-cases, inl, inr,
}
use statuspage.Domain.Escalation.{EscalationStep, page, next_step}

find_sound {ℓ} : {A : Type ℓ} (p : A → Bool) (xs : List A) (x : A) → find p xs ≡ some x → p x ≡ true
unfolding find
find_sound p [] x h = cc
find_sound p (y ∷ ys) x h = ground (arith, find_sound p ys x)

-- What is paged is the rung that was found, or the first one.
page_origin :
    (first : EscalationStep) (rest : List EscalationStep) (repeat_count l round : ℤ)
    (l' round' delay : ℤ)
    → next_step (first ∷ rest) repeat_count l round ≡ page l' round' delay
    → ((x : EscalationStep) × (find (λ t. ltb_ℤ l t.level) (first ∷ rest) ≡ some x)
        × (l' ≡ x.level))
      ⊎ (l' ≡ first.level)
unfolding next_step
page_origin first rest repeat_count l round l' round' delay e =
    elim (Option-cases (find (λ t. ltb_ℤ l t.level) (first ∷ rest))) [
      | inl missing ↦ inr (ground (arith, missing))
      | inr (x, found) ↦ inl (x, found, ground (arith, found))
    ]

module _ (s p : EscalationStep) (lower : s.level <ℤ p.level) where
  find_early :
      (l : ℤ) (xs rest : List EscalationStep) (x : EscalationStep)
      → l <ℤ s.level
      → All (λ t. t.level ≢ s.level) xs
      → find (λ t. ltb_ℤ l t.level) (xs ++ p ∷ rest) ≡ some x
      → x.level ≢ s.level
  unfolding find
  find_early l [] rest x h others e = ground arith
  find_early l (t ∷ xs) rest x h others e = elim (Bool-cases (ltb_ℤ l t.level)) [
    | inl y ↦ ground (arith, others.0)
    | inr n ↦ find_early l xs rest x h others.1 (ground arith)
  ]

  find_hidden :
      (l : ℤ) (xs rest : List EscalationStep) (x : EscalationStep)
      → All (λ t. t.level ≢ s.level) xs
      → find (λ t. ltb_ℤ l t.level) (xs ++ p ∷ rest) ≡ some x
      → x.level ≢ s.level
  find_hidden l xs rest x others e = elim (Bool-cases (ltb_ℤ l s.level)) [
    | inl y ↦ find_early l xs rest x (ground arith) others e
    | inr n ↦ ground (arith, find_sound (λ t. ltb_ℤ l t.level) (xs ++ p ∷ rest) x e)
  ]

  page_hidden :
      (repeat_count l round : ℤ) (xs rest : List EscalationStep) (l' round' delay : ℤ)
      → All (λ t. t.level ≢ s.level) xs
      → next_step (xs ++ p ∷ rest) repeat_count l round ≡ page l' round' delay
      → l' ≢ s.level
  page_hidden repeat_count l round [] rest l' round' delay others e =
      elim (page_origin p rest repeat_count l round l' round' delay e) [
        | inl (x, found, same) ↦ λ q. find_hidden l [] rest x tt found (sym same ∙ q)
        | inr first ↦ ground arith
      ]
  page_hidden repeat_count l round (t ∷ xs) rest l' round' delay others e =
      elim (page_origin t (xs ++ p ∷ rest) repeat_count l round l' round' delay e) [
        | inl (x, found, same) ↦ λ q. find_hidden l (t ∷ xs) rest x others found (sym same ∙ q)
        | inr first ↦ λ q. others.0 (sym first ∙ q)
      ]

-- A rung that is listed behind a higher one is never paged, whatever the level and the round: the
-- walk needs the steps sorted by level.
pub next_step-hidden_rung :
    (xs : List EscalationStep) (p : EscalationStep) (ys : List EscalationStep) (s : EscalationStep)
    (zs : List EscalationStep) (repeat_count l round l' round' delay : ℤ)
    → s.level <ℤ p.level
    → All (λ t. t.level ≢ s.level) xs
    → next_step (xs ++ p ∷ (ys ++ s ∷ zs)) repeat_count l round ≡ page l' round' delay
    → l' ≢ s.level
next_step-hidden_rung xs p ys s zs repeat_count l round l' round' delay lower others e =
    page_hidden s p lower repeat_count l round xs (ys ++ s ∷ zs) l' round' delay others e
