-- ===== src/Server/Auth/Tokens/Lookup.antt =====
-- What `lookup_api_token` of bin/status-server/src/auth/service.rs accepts and refuses.
use statuspage.Base.{
  ◌≡◌, ◌≤◌, ◌↔◌, arith, text_eq_iff, Option, none, some, refl, inl, inr, Bool, true, false,
  Bool-cases, String, List, [], ◌∷◌, text_eq, filter, All, Among, All-Among, All-map,
  All-filter_inv, filter-passes, All-both, filter-Among, Among-All_of,
}
use statuspage.Base.Sort.{sort_by-All, sort_by-All_inv}
use statuspage.Base.Dict.{values}
use statuspage.Domain.Time.{DateTime}
use statuspage.Storage.Tokens.{Tokens, ApiTokenRow, find_api_tokens_by_prefix}
use statuspage.Server.Auth.{slice_prefix}
use statuspage.Server.Auth.Tokens.{
  ApiTokenLookupOutcome, active, invalid, starts_as_token, is_over, first_active, lookup_api_token,
}

module _ (verify : String → String → Bool) (now : DateTime) (raw : String) where
  abbrev pub InTime : Option DateTime → Type 0
  InTime none = Unit
  InTime (some exp) = now ≤ exp

  InTime-iff : (exp : Option DateTime) → (is_over now exp ≡ false) ↔ InTime exp
  unfolding is_over
  InTime-iff none = (λ h. tt, λ h. refl)
  InTime-iff (some exp) = (λ h. ground arith, λ h. ground arith)

  -- The token does not expire or the time has not passed its expiry, and its hash is that of the text.
  abbrev Fits : ApiTokenRow → Type 0
  Fits t = InTime t.expires_at × (verify raw t.token_hash ≡ true)

  -- The text is a token's, its start is the one that is stored, and the rest fits.
  abbrev pub Accepts : ApiTokenRow → Type 0
  Accepts t = (slice_prefix raw 8 ≡ "sm_live_") × (t.token_prefix ≡ slice_prefix raw 16) × Fits t

  -- The token is one of the rows and as `P` says, or none of the rows is.
  abbrev pub Decides : (ApiTokenRow → Type 0) → List ApiTokenRow → ApiTokenLookupOutcome → Type 0
  Decides P rows (active t) = Among t rows × P t
  Decides P rows invalid = All (λ t. ¬ P t) rows

  Decides-later :
      (t : ApiTokenRow) (rows : List ApiTokenRow) (o : ApiTokenLookupOutcome)
      → ¬ Fits t
      → Decides Fits rows o
      → Decides Fits (t ∷ rows) o
  Decides-later t rows (active u) unfit h = (inr h.0, h.1)
  Decides-later t rows invalid unfit h = (unfit, h)

  first_active-Decides :
      (rows : List ApiTokenRow) → Decides Fits rows (first_active verify now raw rows)
  unfolding first_active
  first_active-Decides [] = tt
  first_active-Decides (t ∷ rows) =
      let later = Decides-later t rows (first_active verify now raw rows) in
      let rest = first_active-Decides rows in
      elim (Bool-cases (is_over now t.expires_at)) [
        | inl over ↦
            rw over (later (λ f. let timely = (InTime-iff t.expires_at).1 f.0 in absurd (cc)) rest)
        | inr current ↦ elim (Bool-cases (verify raw t.token_hash)) [
          | inl fits ↦ rw (current, fits) (inl refl, ((InTime-iff t.expires_at).0 current, fits))
          | inr wrong ↦ rw (current, wrong) (later (λ f. absurd (cc)) rest)
        ]
      ]

  candidates-stored :
      (prefix : String) (tokens : Tokens)
      → All
          (λ t. Among t (values tokens) × (text_eq t.token_prefix prefix ≡ true))
          (find_api_tokens_by_prefix prefix tokens)
  unfolding find_api_tokens_by_prefix
  candidates-stored prefix tokens =
      let same : ApiTokenRow → Bool = λ t. text_eq t.token_prefix prefix in
      let rows = values tokens in
      sort_by-All _ _ (filter same rows)
        (All-both _ _ (filter same rows) (filter-Among same rows) (filter-passes same rows))

  others-refused :
      (P : ApiTokenRow → Type 0) (prefix : String) (tokens : Tokens)
      → All P (find_api_tokens_by_prefix prefix tokens)
      → All (λ t. text_eq t.token_prefix prefix ≡ true → P t) (values tokens)
  unfolding find_api_tokens_by_prefix
  others-refused P prefix tokens h = All-filter_inv P _ (values tokens) (sort_by-All_inv _ P _ h)

  widened :
      (tokens : Tokens) (o : ApiTokenLookupOutcome)
      → starts_as_token raw ≡ true
      → Decides Fits (find_api_tokens_by_prefix (slice_prefix raw 16) tokens) o
      → Decides Accepts (values tokens) o
  widened tokens (active t) starts h =
      let stored =
        Among-All_of _ t (find_api_tokens_by_prefix (slice_prefix raw 16) tokens)
          (candidates-stored (slice_prefix raw 16) tokens) h.0 in
      (
        stored.0,
        (
          (text_eq_iff (slice_prefix raw 8) "sm_live_").0 starts,
          (text_eq_iff t.token_prefix (slice_prefix raw 16)).0 stored.1,
          h.1,
        ),
      )
  widened tokens invalid starts h =
      All-map _ _
        (λ t refused accepted.
          refused ((text_eq_iff t.token_prefix (slice_prefix raw 16)).1 accepted.1) accepted.2)
        (values tokens) (others-refused (λ t. ¬ Fits t) (slice_prefix raw 16) tokens h)

-- The looked-up token is one of the stored tokens whose prefix is that of the text, whose time is not
-- over and whose hash the text passes, the text starting as a token does; and the text is refused
-- exactly when no stored token is such.
pub lookup_api_token-Decides :
    (verify : String → String → Bool) (now : DateTime) (raw : String) (tokens : Tokens)
    → Decides verify now raw
        (Accepts verify now raw)
        (values tokens)
        (lookup_api_token verify now raw tokens)
unfolding lookup_api_token
lookup_api_token-Decides verify now raw tokens = elim (Bool-cases (starts_as_token raw)) [
  | inl starts ↦
      let rows = find_api_tokens_by_prefix (slice_prefix raw 16) tokens in
      rw starts (
        widened verify now raw tokens (first_active verify now raw rows) starts
          (first_active-Decides verify now raw rows))
  | inr other ↦ rw other (
      All-map _ _
        (λ t _ accepted.
          let starts = (text_eq_iff (slice_prefix raw 8) "sm_live_").1 accepted.0 in absurd (cc))
        (values tokens) (All-Among (values tokens)))
]
