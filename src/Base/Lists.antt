-- ===== src/Base/Lists.antt =====
-- Lists measured by native numbers, and the searches by a Boolean test that the source writes as
-- iterator chains (`filter`, `find`, `any`, `take_while`, `first`).
use Prim.Native.Nat.{ℕ, zero, suc, ◌+◌, ◌≤◌, ◌<◌}
use mathlib.Core.Path.{◌≡◌, refl, sym, ap, subst, ◌∙◌}
use mathlib.Core.Bool.{Bool, true, false, ◌||◌}
use mathlib.Core.Logic.{◌⊎◌, ◌≢◌, inl, inr}
use mathlib.Core.List.{List, [], ◌∷◌, ◌++◌, map}
use mathlib.Core.Option.{Option, none, some}
use native.Mathlib.Omega.{arith}
use statuspage.Base.Tests.{if◌then◌else◌, Bool-cases}

module _ {ℓ} {A : Type ℓ} where
  abbrev pub length : List A → ℕ
  length [] = 0
  length (x ∷ xs) = suc (length xs)

  -- `truncate`, and the slice `&xs[n..]`.
  unfoldable pub take : ℕ → List A → List A
  take zero xs = []
  take (suc n) [] = []
  take (suc n) (x ∷ xs) = x ∷ take n xs

  unfoldable pub get_elem? : List A → ℕ → Option A
  get_elem? [] i = none
  get_elem? (x ∷ xs) zero = some x
  get_elem? (x ∷ xs) (suc i) = get_elem? xs i

  abbrev pub head? : List A → Option A
  head? [] = none
  head? (x ∷ xs) = some x

  unfoldable pub find : (A → Bool) → List A → Option A
  find p [] = none
  find p (x ∷ xs) = if p x then some x else find p xs

  unfoldable pub filter : (A → Bool) → List A → List A
  filter p [] = []
  filter p (x ∷ xs) = let rest = filter p xs in if p x then x ∷ rest else rest

  unfoldable pub any : (A → Bool) → List A → Bool
  any p [] = false
  any p (x ∷ xs) = p x || any p xs

  unfoldable pub take_while : (A → Bool) → List A → List A
  take_while p [] = []
  take_while p (x ∷ xs) = let rest = take_while p xs in if p x then x ∷ rest else []

  pub length-append : (xs ys : List A) → length (xs ++ ys) ≡ length xs + length ys
  length-append [] ys = omega arith
  length-append (x ∷ xs) ys = omega (arith, length-append xs ys)

  pub length-filter-le : (p : A → Bool) (xs : List A) → length (filter p xs) ≤ length xs
  unfolding filter
  length-filter-le p [] = omega arith
  length-filter-le p (x ∷ xs) = ground (arith, length-filter-le p xs)

  -- Every element has the property; computes to a tuple.
  abbrev pub All {κ} : (A → Type κ) → List A → Type κ
  All P [] = Unit
  All P (x ∷ xs) = P x × All P xs

  pub All-append {κ} : (P : A → Type κ) (xs ys : List A) → All P xs → All P ys → All P (xs ++ ys)
  All-append P [] ys h k = k
  All-append P (x ∷ xs) ys h k = (h.0, All-append P xs ys h.1 k)

  pub All-filter {κ} :
      (P : A → Type κ) (p : A → Bool) (xs : List A) → All P xs → All P (filter p xs)
  unfolding filter
  All-filter P p [] h = tt
  All-filter P p (x ∷ xs) h = ground (arith, All-filter P p xs h.1)

  -- What holds of all that a filter keeps holds of all that pass its test.
  pub All-filter_inv {κ} :
      (P : A → Type κ) (p : A → Bool) (xs : List A)
      → All P (filter p xs)
      → All (λ x. p x ≡ true → P x) xs
  unfolding filter
  All-filter_inv P p [] h = tt
  All-filter_inv P p (x ∷ xs) h = elim (Bool-cases (p x)) [
    | inl e ↦
        let k : All P (x ∷ filter p xs) = rw (e, filter) at h in
        ((λ _. k.0), All-filter_inv P p xs k.1)
    | inr e ↦
        let k : All P (filter p xs) = rw (e, filter) at h in
        ((λ y. absurd (cc)), All-filter_inv P p xs k)
  ]

  pub filter-passes : (p : A → Bool) (xs : List A) → All (λ x. p x ≡ true) (filter p xs)
  unfolding filter
  filter-passes p [] = tt
  filter-passes p (x ∷ xs) = elim (Bool-cases (p x)) [
    | inl e ↦ rw e (e, filter-passes p xs)
    | inr e ↦ rw e (filter-passes p xs)
  ]

  pub All-both {κ} :
      (P Q : A → Type κ) (xs : List A) → All P xs → All Q xs → All (λ x. P x × Q x) xs
  All-both P Q [] h k = tt
  All-both P Q (x ∷ xs) h k = ((h.0, k.0), All-both P Q xs h.1 k.1)

  pub All-map {κ μ} :
      (P : A → Type κ) (Q : A → Type μ)
      → ((x : A) → P x → Q x)
      → (xs : List A) → All P xs
      → All Q xs
  All-map P Q f [] h = tt
  All-map P Q f (x ∷ xs) h = (f x h.0, All-map P Q f xs h.1)

-- Membership, computing to a sum.
abbrev pub Among : {A : Type 0} → A → List A → Type 0
Among x [] = ⊥
Among x (y ∷ ys) = (x ≡ y) ⊎ Among x ys

Among-All : {A : Type 0} (P : A → Type 0) (xs : List A) → ((x : A) → Among x xs → P x) → All P xs
Among-All P [] f = tt
Among-All P (x ∷ xs) f = (f x (inl refl), Among-All P xs (λ y m. f y (inr m)))

-- The elements that a filter keeps are among those of the list.
pub filter-Among : {A : Type 0} (p : A → Bool) (xs : List A) → All (λ x. Among x xs) (filter p xs)
filter-Among p xs = All-filter (λ x. Among x xs) p xs (Among-All (λ x. Among x xs) xs (λ x m. m))

pub get_elem?-some {ℓ} :
    {A : Type ℓ} (xs : List A) (i : ℕ) → i < length xs → (x : A) × (get_elem? xs i ≡ some x)
unfolding get_elem?
get_elem?-some [] i h = absurd (omega arith)
get_elem?-some (x ∷ xs) zero h = (x, refl)
get_elem?-some (x ∷ xs) (suc i) h = get_elem?-some xs i (omega arith)

pub get_elem?-All {ℓ κ} :
    {A : Type ℓ} (P : A → Type κ) (xs : List A) (i : ℕ) (x : A)
    → All P xs
    → get_elem? xs i ≡ some x
    → P x
unfolding get_elem?
get_elem?-All P [] i x h e = absurd (cc)
get_elem?-All P (y ∷ ys) zero x h e = let same : y ≡ x = cc in subst P same h.0
get_elem?-All P (y ∷ ys) (suc i) x h e = get_elem?-All P ys i x h.1 e

-- A list in which some element passes a test is not empty behind a filter by it.
pub any-filter {ℓ} : {A : Type ℓ} (p : A → Bool) (xs : List A) → any p xs ≡ true → filter p xs ≢ []
unfolding any filter
any-filter p [] h e = absurd (cc)
any-filter p (x ∷ xs) h e = elim (Bool-cases (p x)) [
  | inl y ↦ let full : filter p (x ∷ xs) ≡ x ∷ filter p xs = rw y refl in cc
  | inr n ↦
      let same : filter p (x ∷ xs) ≡ filter p xs = rw n refl in
      any-filter p xs (ground (arith, h)) (sym same ∙ e)
]

pub any-none {ℓ} : {A : Type ℓ} (p : A → Bool) (xs : List A) → any p xs ≡ false → filter p xs ≡ []
unfolding any filter
any-none p [] h = refl
any-none p (x ∷ xs) h = ground (arith, any-none p xs)

pub Among-All_of : {A : Type 0} (P : A → Type 0) (x : A) (xs : List A) → All P xs → Among x xs → P x
Among-All_of P x [] h m = absurd m
Among-All_of P x (y ∷ ys) h (inl e) = subst P (sym e) h.0
Among-All_of P x (y ∷ ys) h (inr m) = Among-All_of P x ys h.1 m

pub All-Among : {A : Type 0} (xs : List A) → All (λ x. Among x xs) xs
All-Among xs = Among-All (λ x. Among x xs) xs (λ x m. m)

-- Any two elements at different places are so related, the later to the earlier.
abbrev pub AllPairs {ℓ κ} : {A : Type ℓ} → (A → A → Type κ) → List A → Type κ
AllPairs R [] = Unit
AllPairs R (x ∷ xs) = All (λ y. R y x) xs × AllPairs R xs

pub filter-AllPairs {ℓ κ} :
    {A : Type ℓ} (R : A → A → Type κ) (p : A → Bool) (xs : List A)
    → AllPairs R xs
    → AllPairs R (filter p xs)
unfolding filter
filter-AllPairs R p [] h = tt
filter-AllPairs R p (x ∷ xs) h = elim (Bool-cases (p x)) [
  | inl e ↦ rw e (All-filter (λ y. R y x) p xs h.0, filter-AllPairs R p xs h.1)
  | inr e ↦ rw e (filter-AllPairs R p xs h.1)
]

pub take_all {ℓ} : {A : Type ℓ} (n : ℕ) (xs : List A) → length xs ≤ n → take n xs ≡ xs
unfolding take
take_all zero [] h = refl
take_all zero (x ∷ xs) h = absurd (omega arith)
take_all (suc n) [] h = refl
take_all (suc n) (x ∷ xs) h = ap (λ r. x ∷ r) (take_all n xs (omega arith))

pub map-eq_of_All {ℓ κ} :
    {A : Type ℓ} {B : Type κ} (f g : A → B) (xs : List A)
    → All (λ x. f x ≡ g x) xs
    → map f xs ≡ map g xs
map-eq_of_All f g [] h = refl
map-eq_of_All f g (x ∷ xs) h = cc (h.0, map-eq_of_All f g xs h.1)
