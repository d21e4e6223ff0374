-- ===== src/Domain/OnCall/Overridden.antt =====
-- What `resolve_on_call` of crates/core/src/domain/on_call.rs answers while an override covers the
-- instant.
use statuspage.Base.{
  Bool, true, false, ltb, ◌≤◌, ◌<◌, ◌==◌, if◌then◌else◌, List, [], ◌∷◌, ◌++◌, filter, any, All,
  All-append, All-filter_inv, filter-Among, any-filter, filter-passes, All-both, All-map, AllPairs,
  Among, Bool-cases, inl, inr, ◌≡◌, ◌≢◌, refl, sym, arith,
}
use mathlib.Core.Path.{subst}
use statuspage.Base.Sort.{sort_by, sort_by-All, sort_by-All_inv}
use statuspage.Domain.Time.{Uuid, DateTime}
use statuspage.Domain.OnCall.Slot.{OnCallLayer}
use statuspage.Domain.OnCall.Resolve.{
  Zones, OnCallSchedule, OnCallOverride, covers, push_users, resolve_on_call,
}

-- No user occurs twice.
abbrev pub IsDistinct : List Uuid → Type 0
IsDistinct = AllPairs (λ v u. v ≢ u)

abbrev holds_user : List Uuid → Uuid → Bool
holds_user out u = any (λ v. v == u) out

push_new : List Uuid → Uuid → List Uuid
push_new out u = if holds_user out u then out else out ++ u ∷ []

Among-append_left : (u : Uuid) (xs ys : List Uuid) → Among u xs → Among u (xs ++ ys)
Among-append_left u [] ys m = absurd m
Among-append_left u (x ∷ xs) ys (inl e) = inl e
Among-append_left u (x ∷ xs) ys (inr m) = inr (Among-append_left u xs ys m)

Among-snoc : (u : Uuid) (xs : List Uuid) → Among u (xs ++ u ∷ [])
Among-snoc u [] = inl refl
Among-snoc u (x ∷ xs) = inr (Among-snoc u xs)

holds_user-Among : (u : Uuid) (xs : List Uuid) → holds_user xs u ≡ true → Among u xs
unfolding any
holds_user-Among u [] h = absurd (cc)
holds_user-Among u (x ∷ xs) h = elim (Bool-cases (x == u)) [
  | inl y ↦ inl (ground arith)
  | inr n ↦ inr (holds_user-Among u xs (ground arith))
]

snoc-IsDistinct :
    (u : Uuid) (xs : List Uuid)
    → holds_user xs u ≡ false
    → IsDistinct xs
    → IsDistinct (xs ++ u ∷ [])
unfolding any
snoc-IsDistinct u [] h d = (tt, tt)
snoc-IsDistinct u (x ∷ xs) h d =
    let apart : u ≢ x = λ e. ground arith in
    (All-append (λ v. v ≢ x) xs (u ∷ []) d.0 (apart, tt), snoc-IsDistinct u xs (ground arith) d.1)

module _ (out : List Uuid) (u : Uuid) where
  push_new-IsDistinct : IsDistinct out → IsDistinct (push_new out u)
  unfolding push_new
  push_new-IsDistinct d = elim (Bool-cases (holds_user out u)) [
    | inl y ↦ rw y d
    | inr n ↦ rw n (snoc-IsDistinct u out n d)
  ]

  push_new-All {κ} : (P : Uuid → Type κ) → All P out → P u → All P (push_new out u)
  unfolding push_new
  push_new-All P h p = elim (Bool-cases (holds_user out u)) [
    | inl y ↦ rw y h
    | inr n ↦ rw n (All-append P out (u ∷ []) h (p, tt))
  ]

  push_new-Among : Among u (push_new out u)
  unfolding push_new
  push_new-Among = elim (Bool-cases (holds_user out u)) [
    | inl y ↦ rw y (holds_user-Among u out y)
    | inr n ↦ rw n (Among-snoc u out)
  ]

  push_new-keeps : (v : Uuid) → Among v out → Among v (push_new out u)
  unfolding push_new
  push_new-keeps v m = elim (Bool-cases (holds_user out u)) [
    | inl y ↦ rw y m
    | inr n ↦ rw n (Among-append_left v out (u ∷ []) m)
  ]

push_users-step :
    (out : List Uuid) (o : OnCallOverride) (os : List OnCallOverride)
    → push_users out (o ∷ os) ≡ push_users (push_new out o.user_id) os
unfolding push_users push_new
push_users-step out o os = refl

push_users-IsDistinct :
    (out : List Uuid) (os : List OnCallOverride) → IsDistinct out → IsDistinct (push_users out os)
unfolding push_users
push_users-IsDistinct out [] d = d
push_users-IsDistinct out (o ∷ os) d =
    rw (push_users-step out o os)
      (push_users-IsDistinct (push_new out o.user_id) os (push_new-IsDistinct out o.user_id d))

push_users-All {κ} :
    (P : Uuid → Type κ) (out : List Uuid) (os : List OnCallOverride)
    → All P out
    → All (λ o. P o.user_id) os
    → All P (push_users out os)
unfolding push_users
push_users-All P out [] h k = h
push_users-All P out (o ∷ os) h k =
    rw (push_users-step out o os)
      (push_users-All P (push_new out o.user_id) os (push_new-All out o.user_id P h k.0) k.1)

push_users-keeps :
    (out : List Uuid) (os : List OnCallOverride) (v : Uuid)
    → Among v out
    → Among v (push_users out os)
unfolding push_users
push_users-keeps out [] v m = m
push_users-keeps out (o ∷ os) v m =
    rw (push_users-step out o os)
      (push_users-keeps (push_new out o.user_id) os v (push_new-keeps out o.user_id v m))

push_users-Among :
    (out : List Uuid) (os : List OnCallOverride) → All (λ o. Among o.user_id (push_users out os)) os
unfolding push_users push_new
push_users-Among out [] = tt
push_users-Among out (o ∷ os) = rw (push_users-step out o os) (
  push_users-keeps (push_new out o.user_id) os o.user_id (push_new-Among out o.user_id),
  push_users-Among (push_new out o.user_id) os,
)

-- Half-open windows, as a statement.
abbrev pub Covers : DateTime → OnCallOverride → Type 0
Covers at o = (o.starts_at ≤ at) × (at < o.ends_at)

covers_sound : (at : DateTime) (o : OnCallOverride) → covers at o ≡ true → Covers at o
unfolding covers
covers_sound at o h = ground arith

covers_complete : (at : DateTime) (o : OnCallOverride) → Covers at o → covers at o ≡ true
unfolding covers
covers_complete at o h = ground arith

-- The user has an override among these that covers the instant.
abbrev pub Stands : DateTime → List OnCallOverride → Uuid → Type 0
Stands at overrides u = (o : OnCallOverride) × Among o overrides × Covers at o × (o.user_id ≡ u)

abbrev by_start : OnCallOverride → OnCallOverride → Bool
by_start a b = ltb a.starts_at b.starts_at

abbrev Answered : DateTime → List OnCallOverride → List Uuid → Type 0
Answered at overrides out =
    IsDistinct out
    × All (Stands at overrides) out
    × All (λ o. Covers at o → Among o.user_id out) overrides

module _ (zones : Zones) (schedule : OnCallSchedule) (layers : List OnCallLayer)
    (overrides : List OnCallOverride) (at : DateTime) where
  resolve_on_call-covered :
      (filter (covers at) overrides ≢ [])
      → resolve_on_call zones schedule layers overrides at
        ≡ push_users [] (sort_by by_start (filter (covers at) overrides))
  unfolding resolve_on_call
  resolve_on_call-covered = by_cases (filter (covers at) overrides) refl
    where
      by_cases :
          (os : List OnCallOverride)
          → filter (covers at) overrides ≡ os
          → filter (covers at) overrides ≢ []
          → resolve_on_call zones schedule layers overrides at
            ≡ push_users [] (sort_by by_start (filter (covers at) overrides))
      by_cases [] e h = absurd (h e)
      by_cases (o ∷ os) e h = rw (e, resolve_on_call) refl

  covering-Stands : All (λ o. Stands at overrides o.user_id) (filter (covers at) overrides)
  covering-Stands =
      All-map (λ o. Among o overrides × (covers at o ≡ true)) (λ o. Stands at overrides o.user_id)
        (λ o h. (o, h.0, covers_sound at o h.1, refl)) (filter (covers at) overrides)
        (All-both (λ o. Among o overrides) (λ o. covers at o ≡ true) (filter (covers at) overrides)
          (filter-Among (covers at) overrides) (filter-passes (covers at) overrides))

  pushed-Answered :
      Answered at overrides (push_users [] (sort_by by_start (filter (covers at) overrides)))
  pushed-Answered =
      let sorted = sort_by by_start (filter (covers at) overrides) in
      (
        push_users-IsDistinct [] sorted tt,
        push_users-All (Stands at overrides) [] sorted tt (
            sort_by-All by_start (λ o. Stands at overrides o.user_id) (filter (covers at) overrides)
              covering-Stands),
        All-map (λ o. covers at o ≡ true → Among o.user_id (push_users [] sorted))
            (λ o. Covers at o → Among o.user_id (push_users [] sorted))
            (λ o f c. f (covers_complete at o c)) overrides
            (All-filter_inv (λ o. Among o.user_id (push_users [] sorted)) (covers at) overrides
              (sort_by-All_inv by_start (λ o. Among o.user_id (push_users [] sorted))
                (filter (covers at) overrides) (push_users-Among [] sorted))),
      )

  -- While some override covers the instant, exactly the users with such an override are on call, each
  -- listed once, whatever the layers say.
  pub resolve_on_call-overridden :
      any (covers at) overrides ≡ true
      → let out = resolve_on_call zones schedule layers overrides at in
        IsDistinct out
        × All (Stands at overrides) out
        × All (λ o. Covers at o → Among o.user_id out) overrides
  resolve_on_call-overridden h =
      subst (Answered at overrides)
        (sym (resolve_on_call-covered (any-filter (covers at) overrides h))) pushed-Answered
