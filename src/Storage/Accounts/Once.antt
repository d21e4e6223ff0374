-- ===== src/Storage/Accounts/Once.antt =====
-- How often a magic link of crates/storage/src/memory.rs is consumed.
use statuspage.Base.{
  ℕ, ◌+◌, ◌≤◌, ◌≡◌, refl, sym, ap, ◌∙◌, arith, Bool, true, false, not, ◌&&◌, ◌==◌, ltb,
  if◌then◌else◌, Option, none, some, is_some, is_none, String, List, [], ◌∷◌, Bool-cases,
  Option-cases, inl, inr,
}
use mathlib.Core.Path.{subst}
use statuspage.Base.Dict.{
  get, insert, passing, IsMap, get-insert, get-insert_self, get-retain, insert-IsMap, retain-IsMap,
}
use statuspage.Domain.Time.{Uuid, DateTime}
use statuspage.Storage.Accounts.{
  Accounts, MagicLinkRow, Normalize, create_magic_link, consume_magic_link,
  delete_expired_magic_links, consume_unused, consume_found,
}

-- What happens to the magic links.
pub data LinkAction : Type 0 where
  create : DateTime → Uuid → String → String → String → DateTime → LinkAction
  consume : DateTime → Uuid → LinkAction
  purge : DateTime → LinkAction

unfoldable pub act : Normalize → LinkAction → Accounts → Accounts
act normalize (create now id email token_hash token_prefix expires_at) a =
    (create_magic_link normalize now id email token_hash token_prefix expires_at none none a).0
act normalize (consume now id) a = (consume_magic_link now id a).0
act normalize (purge now) a = (delete_expired_magic_links now a).0

-- Whether the action hands the link out.
unfoldable pub hands_out : Uuid → LinkAction → Accounts → Bool
hands_out id (create now k email token_hash token_prefix expires_at) a = false
hands_out id (consume now k) a = k == id && is_some (consume_magic_link now k a).1
hands_out id (purge now) a = false

unfoldable pub consumed_times : Normalize → Uuid → List LinkAction → Accounts → ℕ
consumed_times normalize id [] a = 0
consumed_times normalize id (x ∷ xs) a =
    (if hands_out id x a then 1 else 0) + consumed_times normalize id xs (act normalize x a)

abbrev used_row : Option MagicLinkRow → Bool
used_row none = false
used_row (some link) = is_some link.used_at

abbrev is_used : Uuid → Accounts → Bool
is_used id a = used_row (get id a.magic_links)

is_used-some :
    (id : Uuid) (a : Accounts)
    → is_used id a ≡ true
    → (link : MagicLinkRow) × (t : DateTime) × (get id a.magic_links ≡ some link)
      × (link.used_at ≡ some t)
is_used-some id a h = elim (Option-cases (get id a.magic_links)) [
  | inl e ↦ let no : is_used id a ≡ false = ap used_row e in absurd (cc)
  | inr (link, e) ↦ elim (Option-cases link.used_at) [
    | inl u ↦ let no : is_used id a ≡ false = ap used_row e ∙ ap is_some u in absurd (cc)
    | inr (t, u) ↦ (link, t, e, u)
  ]
]

consume-used :
    (now : DateTime) (id : Uuid) (a : Accounts)
    → is_used id a ≡ true
    → consume_magic_link now id a ≡ (a, none)
unfolding consume_magic_link
consume-used now id a h =
    let (link, t, e, u) = is_used-some id a h in
    ap (consume_found now id a) e ∙ ap (consume_unused now id a link) u

module _ (now : DateTime) (k : Uuid) (a : Accounts) where
  unused-marks :
      (link : MagicLinkRow) (u : Option DateTime)
      → is_some (consume_unused now k a link u).1 ≡ true
      → is_used k (consume_unused now k a link u).0 ≡ true
  unused-marks link (some t) h = absurd (cc)
  unused-marks link none h =
      ap used_row (get-insert_self k (record link { used_at = some now }) a.magic_links)

  found-marks :
      (o : Option MagicLinkRow)
      → is_some (consume_found now k a o).1 ≡ true
      → is_used k (consume_found now k a o).0 ≡ true
  found-marks none h = absurd (cc)
  found-marks (some link) h = unused-marks link link.used_at h

  -- A successful consumption marks the link.
  consume-marks :
      is_some (consume_magic_link now k a).1 ≡ true
      → is_used k (consume_magic_link now k a).0 ≡ true
  unfolding consume_magic_link
  consume-marks h = found-marks (get k a.magic_links) h

  module _ (id : Uuid) (apart : (k == id) ≡ false) where
    insert-keeps :
        (row : MagicLinkRow) → used_row (get id (insert k row a.magic_links)) ≡ is_used id a
    insert-keeps row = rw (get-insert k id row a.magic_links, apart) refl

    unused-keeps :
        (link : MagicLinkRow) (u : Option DateTime)
        → is_used id (consume_unused now k a link u).0 ≡ is_used id a
    unused-keeps link (some t) = refl
    unused-keeps link none = insert-keeps (record link { used_at = some now })

    found-keeps : (o : Option MagicLinkRow) → is_used id (consume_found now k a o).0 ≡ is_used id a
    found-keeps none = refl
    found-keeps (some link) = unused-keeps link link.used_at

  consume-keeps :
      (id : Uuid) → is_used id a ≡ true → is_used id (consume_magic_link now k a).0 ≡ true
  unfolding consume_magic_link
  consume-keeps id h = elim (Bool-cases (k == id)) [
    | inl y ↦
        let same : k ≡ id = ground arith in
        let still : is_used k a ≡ true = subst (λ i. is_used i a ≡ true) (sym same) h in
        subst (λ r. is_used id r.0 ≡ true) (sym (consume-used now k a still)) h
    | inr n ↦ found-keeps id n (get k a.magic_links) ∙ h
  ]

-- A used link is never replaced, nor purged.
create-keeps :
    (normalize : Normalize) (now : DateTime) (k : Uuid) (email hash prefix : String)
    (expires_at : DateTime) (a : Accounts) (id : Uuid)
    → is_used id a ≡ true
    → is_used id (create_magic_link normalize now k email hash prefix expires_at none none a).0
      ≡ true
unfolding create_magic_link
create-keeps normalize now k email hash prefix expires_at a id h =
    elim (Bool-cases (is_some (get k a.magic_links))) [
      | inl y ↦ rw y h
      | inr n ↦ elim (Bool-cases (k == id)) [
        | inl same ↦
            let (link, t, e, u) = is_used-some id a h in
            let key : k ≡ id = ground arith in
            let there : is_some (get k a.magic_links) ≡ true =
              ap (λ i. is_some (get i a.magic_links)) key ∙ ap is_some e in
            absurd (cc)
        | inr apart ↦ rw n (insert-keeps now k a id apart _ ∙ h)
      ]
    ]

purge-keeps :
    (now : DateTime) (a : Accounts) (id : Uuid)
    → IsMap a.magic_links
    → is_used id a ≡ true
    → is_used id (delete_expired_magic_links now a).0 ≡ true
unfolding delete_expired_magic_links
purge-keeps now a id h used =
    let (link, t, e, u) = is_used-some id a used in
    let keep : MagicLinkRow → Bool = λ m. not (ltb m.expires_at now && is_none m.used_at) in
    let kept : keep link ≡ true =
      ap (λ o. not (ltb link.expires_at now && is_none o)) u ∙ never (ltb link.expires_at now) in
    ap used_row (get-retain keep id a.magic_links h)
    ∙ (ap (λ o. used_row (passing keep o)) e
        ∙ (ap (λ b. used_row (if b then some link else none)) kept ∙ ap is_some u))
  where
    never : (b : Bool) → not (b && false) ≡ true
    never true = refl
    never false = refl

module _ (normalize : Normalize) where
  act-keeps :
      (id : Uuid) (x : LinkAction) (a : Accounts)
      → IsMap a.magic_links
      → is_used id a ≡ true
      → is_used id (act normalize x a) ≡ true
  unfolding act
  act-keeps id (create now k email hash prefix expires_at) a h used =
      create-keeps normalize now k email hash prefix expires_at a id used
  act-keeps id (consume now k) a h used = consume-keeps now k a id used
  act-keeps id (purge now) a h used = purge-keeps now a id h used

  act-IsMap :
      (x : LinkAction) (a : Accounts) → IsMap a.magic_links → IsMap (act normalize x a).magic_links
  unfolding act create_magic_link consume_magic_link delete_expired_magic_links
  act-IsMap (create now k email hash prefix expires_at) a h =
      elim (Bool-cases (is_some (get k a.magic_links))) [
        | inl y ↦ rw (y, IsMap) h
        | inr n ↦ rw (n, IsMap) (insert-IsMap k _ a.magic_links h)
      ]
  act-IsMap (consume now k) a h = found (get k a.magic_links)
    where
      unused :
          (link : MagicLinkRow) (u : Option DateTime)
          → IsMap (consume_unused now k a link u).0.magic_links
      unused link (some t) = h
      unused link none = insert-IsMap k (record link { used_at = some now }) a.magic_links h

      found : (o : Option MagicLinkRow) → IsMap (consume_found now k a o).0.magic_links
      found none = h
      found (some link) = unused link link.used_at
  act-IsMap (purge now) a h = retain-IsMap _ a.magic_links h

  refused :
      (id : Uuid) (x : LinkAction) (a : Accounts) → is_used id a ≡ true → hands_out id x a ≡ false
  unfolding hands_out
  refused id (create now k email hash prefix expires_at) a used = refl
  refused id (consume now k) a used = elim (Bool-cases (k == id)) [
    | inl y ↦
        let same : k ≡ id = ground arith in
        let still : is_used k a ≡ true = subst (λ i. is_used i a ≡ true) (sym same) used in
        rw (y, consume-used now k a still) refl
    | inr n ↦ rw n refl
  ]
  refused id (purge now) a used = refl

  handed-used :
      (id : Uuid) (x : LinkAction) (a : Accounts)
      → hands_out id x a ≡ true
      → is_used id (act normalize x a) ≡ true
  unfolding hands_out act
  handed-used id (create now k email hash prefix expires_at) a h = absurd (cc)
  handed-used id (consume now k) a h =
      let same : k ≡ id = ground (arith, h) in
      let got : is_some (consume_magic_link now k a).1 ≡ true = ground (arith, h) in
      subst (λ i. is_used i (consume_magic_link now k a).0 ≡ true) same (consume-marks now k a got)
  handed-used id (purge now) a h = absurd (cc)

  no_more :
      (id : Uuid) (xs : List LinkAction) (a : Accounts)
      → IsMap a.magic_links
      → is_used id a ≡ true
      → consumed_times normalize id xs a ≡ 0
  unfolding consumed_times
  no_more id [] a h used = refl
  no_more id (x ∷ xs) a h used =
      let rest = no_more id xs (act normalize x a) (act-IsMap x a h) (act-keeps id x a h used) in
      rw (refused id x a used, rest) refl

  -- Whatever links are created, consumed and purged, at whatever times and in whatever order, a link is
  -- handed out at most once.
  pub consumed-once :
      (id : Uuid) (xs : List LinkAction) (a : Accounts)
      → IsMap a.magic_links
      → consumed_times normalize id xs a ≤ 1
  unfolding consumed_times
  consumed-once id [] a h = omega arith
  consumed-once id (x ∷ xs) a h = elim (Bool-cases (hands_out id x a)) [
    | inl y ↦
        let none_left =
          no_more id xs (act normalize x a) (act-IsMap x a h) (handed-used id x a y) in
        rw y (omega (arith, none_left))
    | inr n ↦
        let rest = consumed-once id xs (act normalize x a) (act-IsMap x a h) in
        rw n (omega (arith, rest))
  ]
