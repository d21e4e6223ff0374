-- ===== src/Domain/Escalation/Ladder.antt =====
-- The whole walk of a ladder by `next_step` of crates/core/src/domain/escalation_policy.rs.
use statuspage.Base.{
  ℕ, zero, suc, ◌+◌, ◌*◌, ◌≤◌, ◌<◌, ◌≡◌, refl, sym, ap, ◌∙◌, Option, none, some, List, [], ◌∷◌,
  ◌++◌, arith, ℤ, pos, pos_part, ◌≤ℤ◌, ◌<ℤ◌, +ℤ_pos, ltb_ℤ, find, length, All, All-append,
}
use mathlib.Core.List.{append_assoc, append-nil}
use mathlib.Core.Path.{subst}
use statuspage.Domain.Escalation.{EscalationStep, page, exhausted, next_step}

-- A page by its level and round.
abbrev pub Page : Type 0
Page = ℤ × ℤ

abbrev then_page : Page → Option (List Page) → Option (List Page)
then_page p none = none
then_page p (some ps) = some (p ∷ ps)

-- Asks for the next step again and again until the ladder is spent; `none` if the fuel runs out.
unfoldable pub walk : ℕ → List EscalationStep → ℤ → ℤ → ℤ → Option (List Page)
walk zero steps repeat_count level round = none
walk (suc fuel) steps repeat_count level round = elim (next_step steps repeat_count level round) [
  | page l r d ↦ then_page (l, r) (walk fuel steps repeat_count l r)
  | exhausted ↦ some []
]

-- The levels rise, the first above `l`.
abbrev pub Ascending : ℤ → List EscalationStep → Type 0
Ascending l [] = Unit
Ascending l (s ∷ ss) = (l <ℤ s.level) × Ascending s.level ss

-- Every rung in order, once in the given round.
unfoldable pub pages : List EscalationStep → ℕ → List Page
pages [] round = []
pages (s ∷ ss) round = (s.level, pos round) ∷ pages ss round

-- The rounds from the given one on, `k` of them.
unfoldable pub rounds : List EscalationStep → ℕ → ℕ → List Page
unfolding pages
rounds steps zero round = []
rounds steps (suc k) round = pages steps round ++ rounds steps k (suc round)

find_passed :
    (l : ℤ) (before after : List EscalationStep)
    → All (λ s. s.level ≤ℤ l) before
    → find (λ s. ltb_ℤ l s.level) (before ++ after) ≡ find (λ s. ltb_ℤ l s.level) after
unfolding find
find_passed l [] after h = refl
find_passed l (s ∷ before) after h = ground (arith, find_passed l before after h.1)

passed_mono :
    (l m : ℤ) (ss : List EscalationStep)
    → l ≤ℤ m
    → All (λ s. s.level ≤ℤ l) ss
    → All (λ s. s.level ≤ℤ m) ss
passed_mono l m [] h k = tt
passed_mono l m (s ∷ ss) h k = (omega arith, passed_mono l m ss h k.1)

-- A rung is next.
next_step_rung :
    (repeat_count l round : ℤ) (before : List EscalationStep) (s : EscalationStep)
    (after : List EscalationStep)
    → All (λ s. s.level ≤ℤ l) before
    → l <ℤ s.level
    → next_step (before ++ s ∷ after) repeat_count l round ≡ page s.level round s.delay_secs
unfolding next_step find
next_step_rung repeat_count l round [] s after h k = ground arith
next_step_rung repeat_count l round (b ∷ before) s after h k =
    ground (arith, find_passed l before (s ∷ after) h.1)

find-none :
    (l : ℤ) (ss : List EscalationStep)
    → All (λ s. s.level ≤ℤ l) ss
    → find (λ s. ltb_ℤ l s.level) ss ≡ none
unfolding find
find-none l [] h = refl
find-none l (s ∷ ss) h = ground (arith, find-none l ss h.1)

-- The top is reached: another round, or none.
next_step_top :
    (repeat_count l : ℤ) (round : ℕ) (first : EscalationStep) (rest : List EscalationStep)
    → All (λ s. s.level ≤ℤ l) (first ∷ rest)
    → (round < pos_part repeat_count
        → next_step (first ∷ rest) repeat_count l (pos round)
          ≡ page first.level (pos (suc round)) first.delay_secs)
      × (pos_part repeat_count ≤ round
          → next_step (first ∷ rest) repeat_count l (pos round) ≡ exhausted)
unfolding next_step
next_step_top repeat_count l round first rest h = (
  λ k. rw (find-none l (first ∷ rest) h, next_step) (ground (arith, +ℤ_pos round 1)),
  λ k. rw (find-none l (first ∷ rest) h, next_step) (ground arith),
)

walk_page :
    (fuel : ℕ) (steps : List EscalationStep) (repeat_count l round : ℤ) {l' round' delay : ℤ}
    → next_step steps repeat_count l round ≡ page l' round' delay
    → walk (suc fuel) steps repeat_count l round
      ≡ then_page (l', round') (walk fuel steps repeat_count l' round')
unfolding walk
walk_page fuel steps repeat_count l round e = rw (e, walk)

walk_done :
    (fuel : ℕ) (steps : List EscalationStep) (repeat_count l round : ℤ)
    → next_step steps repeat_count l round ≡ exhausted
    → walk (suc fuel) steps repeat_count l round ≡ some []
unfolding walk
walk_done fuel steps repeat_count l round e = rw (e, walk)

module _ (first : EscalationStep) (rest : List EscalationStep) (repeat_count : ℤ)
    (rising : Ascending first.level rest) where
  All-passed :
      (before : List EscalationStep) (l : ℤ)
      → first ∷ rest ≡ before ++ []
      → All (λ s. s.level ≤ℤ l) before
      → All (λ s. s.level ≤ℤ l) (first ∷ rest)
  All-passed before l whole passed =
      subst (All (λ s. s.level ≤ℤ l)) (sym (whole ∙ append-nil before)) passed

  walk_from :
      (fuel : ℕ) (before after : List EscalationStep) (k round : ℕ) (l : ℤ)
      → first ∷ rest ≡ before ++ after
      → All (λ s. s.level ≤ℤ l) before
      → Ascending l after
      → pos_part repeat_count ≡ round + k
      → length after + k * suc (length rest) < fuel
      → walk fuel (first ∷ rest) repeat_count l (pos round)
        ≡ some (pages after round ++ rounds (first ∷ rest) k (suc round))
  unfolding pages rounds
  walk_from zero before after k round l whole passed up budget enough = absurd (omega arith)
  walk_from (suc fuel) before (s ∷ after) k round l whole passed up budget enough =
      walk_page fuel (first ∷ rest) repeat_count l (pos round) (
        ap (λ ss. next_step ss repeat_count l (pos round)) whole
        ∙ next_step_rung repeat_count l (pos round) before s after passed up.0)
      ∙ ap (then_page (s.level, pos round)) (
          walk_from fuel (before ++ s ∷ []) after k round s.level
            (whole ∙ sym (append_assoc before (s ∷ []) after))
            (All-append (λ t. t.level ≤ℤ s.level) before (s ∷ [])
              (passed_mono l s.level before (omega arith) passed) (omega arith, tt))
            up.1 budget (omega arith))
  walk_from (suc fuel) before [] zero round l whole passed up budget enough =
      walk_done fuel (first ∷ rest) repeat_count l (pos round) (
        (next_step_top repeat_count l round first rest (All-passed before l whole passed)).1
          (omega arith))
  walk_from (suc fuel) before [] (suc k) round l whole passed up budget enough =
      walk_page fuel (first ∷ rest) repeat_count l (pos round) (
        (next_step_top repeat_count l round first rest (All-passed before l whole passed)).0
          (omega arith))
      ∙ ap (then_page (first.level, pos (suc round))) (
          walk_from fuel (first ∷ []) rest k (suc round) first.level refl (omega arith, tt) rising
            (omega arith) (omega arith))

rounds-nil : (k round : ℕ) → rounds [] k round ≡ []
unfolding rounds pages
rounds-nil zero round = refl
rounds-nil (suc k) round = rounds-nil k (suc round)

-- A ladder whose levels are positive and rise, walked from the start with enough fuel, pages every
-- rung in order, once in the first round and once in each of the repeats, and is then spent.
pub walk_complete :
    (steps : List EscalationStep) (repeat_count : ℤ) (fuel : ℕ)
    → Ascending (pos 0) steps
    → length steps * suc (pos_part repeat_count) < fuel
    → walk fuel steps repeat_count (pos 0) (pos 0)
      ≡ some (rounds steps (suc (pos_part repeat_count)) 0)
unfolding walk rounds next_step
walk_complete steps repeat_count zero up enough = absurd (omega arith)
walk_complete [] repeat_count (suc fuel) up enough = rw (rounds-nil (pos_part repeat_count) 1)
walk_complete (first ∷ rest) repeat_count (suc fuel) up enough =
    walk_from first rest repeat_count up.1 (suc fuel) [] (first ∷ rest) (pos_part repeat_count) 0
      (pos 0) refl tt up (omega arith) (omega arith)
