-- ===== src/Base/Sort.antt =====
-- `sort_by_key` and `sort_by`: the stable sort of the standard library, as insertion sort by a
-- strict test. Equal keys keep their order.
use Prim.Native.Nat.{suc}
use mathlib.Core.Path.{◌≡◌, refl}
use mathlib.Core.Bool.{Bool, true, false}
use mathlib.Core.List.{List, [], ◌∷◌, Perm}
use mathlib.Core.List.Perm
use mathlib.Core.Logic.{inl, inr}
use statuspage.Base.Tests.{if◌then◌else◌, Bool-cases}
use native.Mathlib.Omega.{arith}
use statuspage.Base.Lists.{All, AllPairs, length}

module _ {ℓ} {A : Type ℓ} (lt : A → A → Bool) where
  insert_sorted : A → List A → List A
  insert_sorted x [] = x ∷ []
  insert_sorted x (y ∷ ys) =
      let rest = insert_sorted x ys in if lt y x then y ∷ rest else x ∷ y ∷ ys

  unfoldable pub sort_by : List A → List A
  unfolding insert_sorted
  sort_by [] = []
  sort_by (x ∷ xs) = insert_sorted x (sort_by xs)

  -- No element comes after one that it is less than.
  abbrev pub IsSorted : List A → Type 0
  IsSorted [] = Unit
  IsSorted (x ∷ xs) = All (λ y. lt y x ≡ false) xs × IsSorted xs

  insert_sorted-perm : (x : A) (xs : List A) → Perm (insert_sorted x xs) (x ∷ xs)
  unfolding insert_sorted
  insert_sorted-perm x [] = Perm.refl (x ∷ [])
  insert_sorted-perm x (y ∷ ys) = elim (Bool-cases (lt y x)) [
    | inl e ↦ rw e (Perm.trans (Perm.cons y (insert_sorted-perm x ys)) (Perm.swap x y ys))
    | inr e ↦ rw e (Perm.refl (x ∷ y ∷ ys))
  ]

  pub sort_by-perm : (xs : List A) → Perm (sort_by xs) xs
  unfolding sort_by
  sort_by-perm [] = Perm.refl []
  sort_by-perm (x ∷ xs) =
      Perm.trans (insert_sorted-perm x (sort_by xs)) (Perm.cons x (sort_by-perm xs))

  length-insert_sorted : (x : A) (xs : List A) → length (insert_sorted x xs) ≡ suc (length xs)
  unfolding insert_sorted
  length-insert_sorted x [] = refl
  length-insert_sorted x (y ∷ ys) = ground (arith, length-insert_sorted x ys)

  pub length-sort_by : (xs : List A) → length (sort_by xs) ≡ length xs
  unfolding sort_by
  length-sort_by [] = refl
  length-sort_by (x ∷ xs) = omega (arith, length-insert_sorted x (sort_by xs), length-sort_by xs)

  insert_sorted-All {κ} :
      (P : A → Type κ) (x : A) (xs : List A) → P x → All P xs → All P (insert_sorted x xs)
  unfolding insert_sorted
  insert_sorted-All P x [] p h = (p, tt)
  insert_sorted-All P x (y ∷ ys) p h = elim (Bool-cases (lt y x)) [
    | inl e ↦ rw e (h.0, insert_sorted-All P x ys p h.1)
    | inr e ↦ rw e (p, h)
  ]

  pub sort_by-All {κ} : (P : A → Type κ) (xs : List A) → All P xs → All P (sort_by xs)
  unfolding sort_by
  sort_by-All P [] h = tt
  sort_by-All P (x ∷ xs) h = insert_sorted-All P x (sort_by xs) h.0 (sort_by-All P xs h.1)

  insert_sorted-AllPairs {κ} :
      (R : A → A → Type κ)
      → ((a b : A) → R a b → R b a)
      → (x : A) (xs : List A) → All (λ y. R y x) xs
      → AllPairs R xs
      → AllPairs R (insert_sorted x xs)
  unfolding insert_sorted
  insert_sorted-AllPairs R flip x [] h k = (tt, tt)
  insert_sorted-AllPairs R flip x (y ∷ ys) h k = elim (Bool-cases (lt y x)) [
    | inl e ↦ rw e (
      insert_sorted-All (λ z. R z y) x ys (flip y x h.0) k.0,
      insert_sorted-AllPairs R flip x ys h.1 k.1,
    )
    | inr e ↦ rw e (h, k)
  ]

  pub sort_by-AllPairs {κ} :
      (R : A → A → Type κ)
      → ((a b : A) → R a b → R b a)
      → (xs : List A) → AllPairs R xs
      → AllPairs R (sort_by xs)
  unfolding sort_by
  sort_by-AllPairs R flip [] h = tt
  sort_by-AllPairs R flip (x ∷ xs) h =
      insert_sorted-AllPairs R flip x (sort_by xs) (sort_by-All (λ y. R y x) xs h.0)
        (sort_by-AllPairs R flip xs h.1)

  -- The test orders: it is asymmetric, and its negation is transitive.
  pub record IsOrder : Type ℓ where
    pub asymm : (a b : A) → lt a b ≡ true → lt b a ≡ false
    pub le_trans : (a b c : A) → lt b a ≡ false → lt c b ≡ false → lt c a ≡ false

  module _ (o : IsOrder) where
    All-le :
        (x y : A) (ys : List A)
        → lt y x ≡ false
        → All (λ z. lt z y ≡ false) ys
        → All (λ z. lt z x ≡ false) ys
    All-le x y [] h k = tt
    All-le x y (z ∷ zs) h k = (o.le_trans x y z h k.0, All-le x y zs h k.1)

    insert_sorted-IsSorted : (x : A) (xs : List A) → IsSorted xs → IsSorted (insert_sorted x xs)
    unfolding insert_sorted
    insert_sorted-IsSorted x [] s = (tt, tt)
    insert_sorted-IsSorted x (y ∷ ys) s = elim (Bool-cases (lt y x)) [
      | inl e ↦ rw e (
        insert_sorted-All (λ z. lt z y ≡ false) x ys (o.asymm y x e) s.0,
        insert_sorted-IsSorted x ys s.1,
      )
      | inr e ↦ rw e ((e, All-le x y ys e s.0), s)
    ]

    pub sort_by-IsSorted : (xs : List A) → IsSorted (sort_by xs)
    unfolding sort_by
    sort_by-IsSorted [] = tt
    sort_by-IsSorted (x ∷ xs) = insert_sorted-IsSorted x (sort_by xs) (sort_by-IsSorted xs)

module _ {ℓ κ} {A : Type ℓ} (lt : A → A → Bool) (P : A → Type κ) where
  insert_sorted-All_inv : (x : A) (xs : List A) → All P (insert_sorted lt x xs) → P x × All P xs
  unfolding insert_sorted
  insert_sorted-All_inv x [] h = h
  insert_sorted-All_inv x (y ∷ ys) h = elim (Bool-cases (lt y x)) [
    | inl e ↦
        let k : All P (y ∷ insert_sorted lt x ys) = rw (e, insert_sorted) at h in
        let rest = insert_sorted-All_inv x ys k.1 in (rest.0, (k.0, rest.1))
    | inr e ↦ rw (e, insert_sorted) at h
  ]

  -- What holds of all of a sorted list holds of all of the list.
  pub sort_by-All_inv : (xs : List A) → All P (sort_by lt xs) → All P xs
  unfolding sort_by
  sort_by-All_inv [] h = tt
  sort_by-All_inv (x ∷ xs) h =
      let k = insert_sorted-All_inv x (sort_by lt xs) h in (k.0, sort_by-All_inv xs k.1)
