-- ===== src/Domain/Codes/Faithful.antt =====
-- When a text form of an enumeration can be read back: the shape of every `as_db_str` and
-- `from_db_str` pair of crates/core/src/domain.
use statuspage.Base.{
  String, ◌≡◌, refl, Option, none, some, sym, ◌⊎◌, inl, inr, if◌then◌else◌, text_eq, text_eq_iff,
  Bool-cases,
}

abbrev pub IsFaithful {ℓ} :
    {A : Type ℓ} (as_text : A → String) (of_text : String → A) (fallback : A) → Type ℓ
IsFaithful {A} as_text of_text fallback =
    ((a : A) → of_text (as_text a) ≡ a)
    × ((s : String) → (of_text s ≡ fallback) ⊎ (as_text (of_text s) ≡ s))

-- The same of a reading that refuses other texts.
abbrev pub IsExact {ℓ} : {A : Type ℓ} (as_text : A → String) (of_text : String → Option A) → Type ℓ
IsExact {A} as_text of_text =
    ((a : A) → of_text (as_text a) ≡ some a)
    × ((s : String) → (of_text s ≡ none) ⊎ ((a : A) × (of_text s ≡ some a) × (as_text a ≡ s)))

-- One arm of such a `match`.
pub exact_arm {ℓ} :
    {A : Type ℓ} (as_text : A → String) (s : String) (a : A) (rest : Option A)
    → (rest ≡ none) ⊎ ((b : A) × (rest ≡ some b) × (as_text b ≡ s))
    → let r = (if text_eq s (as_text a) then some a else rest) in
      (r ≡ none) ⊎ ((b : A) × (r ≡ some b) × (as_text b ≡ s))
exact_arm as_text s a rest h = elim (Bool-cases (text_eq s (as_text a))) [
  | inl e ↦ rw e (inr (a, refl, sym ((text_eq_iff s (as_text a)).0 e)))
  | inr e ↦ rw e h
]

-- One arm of the `match` on the text.
pub arm {ℓ} :
    {A : Type ℓ} (as_text : A → String) (fallback : A) (s : String) (a rest : A)
    → (rest ≡ fallback) ⊎ (as_text rest ≡ s)
    → let r = (if text_eq s (as_text a) then a else rest) in (r ≡ fallback) ⊎ (as_text r ≡ s)
arm as_text fallback s a rest h = elim (Bool-cases (text_eq s (as_text a))) [
  | inl e ↦ rw e (inr (sym ((text_eq_iff s (as_text a)).0 e)))
  | inr e ↦ rw e h
]
