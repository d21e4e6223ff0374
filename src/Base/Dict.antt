-- ===== src/Base/Dict.antt =====
-- `HashMap<Uuid, V>`: an association list over numeric keys. The list's order stands for the
-- unspecified order in which the map is walked.
use Prim.Native.Nat.{ℕ}
use mathlib.Core.Bool.{Bool, false}
use mathlib.Core.Path.{◌≡◌, refl, subst, sym, ap}
use mathlib.Core.List.{List, [], ◌∷◌}
use mathlib.Core.Logic.{inl, inr}
use mathlib.Core.Option.{Option, none, some}
use native.Mathlib.Omega.{arith}
use statuspage.Base.Tests.{◌==◌, if◌then◌else◌, Bool-cases, ==_refl}
use statuspage.Base.Lists.{All}

abbrev pub Dict {ℓ} : Type ℓ → Type ℓ
Dict V = List (ℕ × V)

module _ {ℓ} {V : Type ℓ} where
  unfoldable pub get : ℕ → Dict V → Option V
  get k [] = none
  get k ((j, v) ∷ m) = if j == k then some v else get k m

  unfoldable pub insert : ℕ → V → Dict V → Dict V
  insert k v [] = (k, v) ∷ []
  insert k v ((j, w) ∷ m) = if j == k then (k, v) ∷ m else (j, w) ∷ insert k v m

  unfoldable pub remove : ℕ → Dict V → Dict V
  remove k [] = []
  remove k ((j, w) ∷ m) = let rest = remove k m in if j == k then rest else (j, w) ∷ rest

  unfoldable pub values : Dict V → List V
  values [] = []
  values ((j, w) ∷ m) = w ∷ values m

  pub get-insert :
      (k j : ℕ) (v : V) (m : Dict V) → get j (insert k v m) ≡ (if k == j then some v else get j m)
  unfolding get insert
  get-insert k j v [] = refl
  get-insert k j v ((i, w) ∷ m) = ground (arith, get-insert k j v m)

  pub get-insert_self : (k : ℕ) (v : V) (m : Dict V) → get k (insert k v m) ≡ some v
  get-insert_self k v m = rw (get-insert k k v m, ==_refl k)

  pub get-remove : (k j : ℕ) (m : Dict V) → get j (remove k m) ≡ (if k == j then none else get j m)
  unfolding get remove
  get-remove k j [] = ground arith
  get-remove k j ((i, w) ∷ m) = ground (arith, get-remove k j m)

  pub get-remove_self : (k : ℕ) (m : Dict V) → get k (remove k m) ≡ none
  get-remove_self k m = rw (get-remove k k m, ==_refl k)

  -- A stored value is among those that a walk over the map visits.
  pub values-All {κ} :
      (P : V → Type κ) (k : ℕ) (v : V) (m : Dict V) → get k m ≡ some v → All P (values m) → P v
  unfolding get values
  values-All P k v [] e h = cc
  values-All P k v ((j, w) ∷ m) e h = elim (Bool-cases (j == k)) [
    | inl y ↦ let same : w ≡ v = ground arith in subst P same h.0
    | inr n ↦ values-All P k v m (ground arith) h.1
  ]

  -- Each key occurs once, and each value is stored under its own key.
  abbrev pub IsKeyed : (V → ℕ) → Dict V → Type ℓ
  IsKeyed key [] = Unit {ℓ}
  IsKeyed key ((k, v) ∷ m) = (key v ≡ k) × (get k m ≡ none) × IsKeyed key m

  pub insert-IsKeyed :
      (key : V → ℕ) (v : V) (m : Dict V) → IsKeyed key m → IsKeyed key (insert (key v) v m)
  unfolding insert get
  insert-IsKeyed key v [] h = (refl, refl, tt)
  insert-IsKeyed key v ((j, w) ∷ m) h = elim (Bool-cases (j == key v)) [
    | inl y ↦
        let same : j ≡ key v = ground arith in
        let replaced : IsKeyed key ((key v, v) ∷ m) =
          (refl, subst (λ k. get k m ≡ none) same h.1, h.2) in
        rw y replaced
    | inr n ↦
        let apart : (key v == j) ≡ false = ground arith in
        let kept : IsKeyed key ((j, w) ∷ insert (key v) v m) =
          (h.0, rw (get-insert (key v) j v m, apart, h.1), insert-IsKeyed key v m h.2) in
        rw n kept
  ]

  -- What holds of every value that a key finds holds of all values.
  pub All-values {κ} :
      (P : V → Type κ) (key : V → ℕ) (m : Dict V)
      → IsKeyed key m
      → ((k : ℕ) (v : V) → get k m ≡ some v → P v)
      → All P (values m)
  unfolding get values
  All-values P key [] h p = tt
  All-values P key ((j, w) ∷ m) h p = (
    p j w (ap (λ b. if b then some w else get j m) (==_refl j)),
    All-values P key m h.2 (λ k v found. p k v (elim (Bool-cases (j == k)) [
      | inl y ↦
          let same : j ≡ k = ground arith in
          let lost : get k m ≡ none = subst (λ x. get x m ≡ none) same h.1 in cc
      | inr n ↦ rw (n, found)
    ])),
  )

  pub key-of :
      (key : V → ℕ) (m : Dict V) → IsKeyed key m → (k : ℕ) (v : V) → get k m ≡ some v → key v ≡ k
  unfolding get
  key-of key [] h k v found = cc
  key-of key ((j, w) ∷ m) h k v found = elim (Bool-cases (j == k)) [
    | inl y ↦ let same : w ≡ v = ground arith in ground arith
    | inr n ↦ key-of key m h.2 k v (ground arith)
  ]

  -- A value of the map is found under its key.
  pub stored_under_key :
      (key : V → ℕ) (m : Dict V) → IsKeyed key m → All (λ v. get (key v) m ≡ some v) (values m)
  stored_under_key key m h =
      All-values (λ v. get (key v) m ≡ some v) key m h
        (λ k v found.
          let same : key v ≡ k = key-of key m h k v found in
          subst (λ x. get x m ≡ some v) (sym same) found)

  pub remove-IsKeyed : (key : V → ℕ) (k : ℕ) (m : Dict V) → IsKeyed key m → IsKeyed key (remove k m)
  unfolding remove
  remove-IsKeyed key k [] h = tt
  remove-IsKeyed key k ((j, w) ∷ m) h =
      let rest = remove-IsKeyed key k m h.2 in
      elim (Bool-cases (j == k)) [
        | inl y ↦ rw y rest
        | inr n ↦
            let absent : get j (remove k m) ≡ none =
              let e = get-remove k j m in ground (arith, h.1) in
            let kept : IsKeyed key ((j, w) ∷ remove k m) = (h.0, absent, rest) in rw n kept
      ]

  -- `retain`, by the values.
  unfoldable pub retain : (V → Bool) → Dict V → Dict V
  retain p [] = []
  retain p ((j, w) ∷ m) = let rest = retain p m in if p w then (j, w) ∷ rest else rest

  -- Each key occurs once.
  abbrev pub IsMap : Dict V → Type ℓ
  IsMap [] = Unit {ℓ}
  IsMap ((k, v) ∷ m) = (get k m ≡ none) × IsMap m

  pub insert-IsMap : (k : ℕ) (v : V) (m : Dict V) → IsMap m → IsMap (insert k v m)
  unfolding insert get
  insert-IsMap k v [] h = (refl, tt)
  insert-IsMap k v ((j, w) ∷ m) h = elim (Bool-cases (j == k)) [
    | inl y ↦
        let same : j ≡ k = ground arith in
        let replaced : IsMap ((k, v) ∷ m) = (subst (λ x. get x m ≡ none) same h.0, h.1) in
        rw y replaced
    | inr n ↦
        let apart : (k == j) ≡ false = ground arith in
        let kept : IsMap ((j, w) ∷ insert k v m) =
          (rw (get-insert k j v m, apart, h.0), insert-IsMap k v m h.1) in
        rw n kept
  ]

  -- A value that passes, and no other.
  abbrev pub passing : (V → Bool) → Option V → Option V
  passing p none = none
  passing p (some v) = if p v then some v else none

  pub get-retain :
      (p : V → Bool) (k : ℕ) (m : Dict V) → IsMap m → get k (retain p m) ≡ passing p (get k m)
  unfolding get retain
  get-retain p k [] h = refl
  get-retain p k ((j, w) ∷ m) h =
      let rest = get-retain p k m h.1 in
      elim (Bool-cases (j == k)) [
        | inl y ↦
            let same : j ≡ k = ground arith in
            let gone : get k m ≡ none = subst (λ x. get x m ≡ none) same h.0 in
            elim (Bool-cases (p w)) [
              | inl t ↦ rw (t, y, t) refl
              | inr f ↦ rw (f, y, f, rest, gone) refl
            ]
        | inr n ↦ elim (Bool-cases (p w)) [ inl t ↦ rw (t, n) rest | inr f ↦ rw (f, n) rest ]
      ]

  pub retain-IsMap : (p : V → Bool) (m : Dict V) → IsMap m → IsMap (retain p m)
  unfolding retain
  retain-IsMap p [] h = tt
  retain-IsMap p ((j, w) ∷ m) h =
      let rest = retain-IsMap p m h.1 in
      elim (Bool-cases (p w)) [
        | inl t ↦
            let kept : IsMap ((j, w) ∷ retain p m) = (rw (get-retain p j m h.1, h.0) refl, rest) in
            rw t kept
        | inr f ↦ rw f rest
      ]
