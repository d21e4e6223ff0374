-- ===== src/Storage/Tokens.antt =====
-- The API tokens of crates/storage/src/memory.rs, with the row of crates/core/src/domain/api_token.rs.
use statuspage.Base.{
  ℕ, ◌+◌, ◌*◌, ◌-◌, Bool, true, not, ltb, leb, ◌==◌, if◌then◌else◌, Option, none, some, is_some,
  String, List, [], ◌∷◌, length, filter, text_eq,
}
use statuspage.Base.Dict.{Dict, get, insert, remove, retain, values}
use statuspage.Base.Sort.{sort_by}
use statuspage.Domain.Time.{Uuid, DateTime, nanos}
use statuspage.Domain.Scope.{Scope, full_access}
use statuspage.Storage.Memory.{Result, ok, err, conflict, not_found}

pub record ApiTokenRow : Type 0 where
  pub id : Uuid
  pub user_id : Uuid
  pub name : String
  pub token_hash : String
  pub token_prefix : String
  pub scopes : List Scope
  pub created_at : DateTime
  pub last_used_at : Option DateTime
  pub expires_at : Option DateTime

pub record NewApiToken : Type 0 where
  pub name : String
  pub scopes : Option (List Scope)
  pub expires_in_days : Option ℕ

abbrev pub Tokens : Type 0
Tokens = Dict ApiTokenRow

abbrev or_full : Option (List Scope) → List Scope
or_full none = full_access ∷ []
or_full (some scopes) = scopes

abbrev expiry : DateTime → Option ℕ → Option DateTime
expiry now none = none
expiry now (some days) = some (now + days * 86400 * nanos)

unfoldable pub create_api_token :
    DateTime → Uuid → Uuid → NewApiToken → String → String → Tokens → Tokens × Result ApiTokenRow
create_api_token now id user_id new token_hash token_prefix tokens =
    let row : ApiTokenRow = record {
      id = id;
      user_id = user_id;
      name = new.name;
      token_hash = token_hash;
      token_prefix = token_prefix;
      scopes = or_full new.scopes;
      created_at = now;
      last_used_at = none;
      expires_at = expiry now new.expires_in_days;
    } in
    if is_some (get id tokens) then (tokens, err conflict) else (insert id row tokens, ok row)

abbrev pub newest : List ApiTokenRow → List ApiTokenRow
newest rows = sort_by (λ t u. ltb u.created_at t.created_at) rows

unfoldable pub find_api_tokens_by_prefix : String → Tokens → List ApiTokenRow
find_api_tokens_by_prefix prefix tokens =
    newest (filter (λ t. text_eq t.token_prefix prefix) (values tokens))

unfoldable pub list_api_tokens : Uuid → Tokens → List ApiTokenRow
list_api_tokens user_id tokens = newest (filter (λ t. t.user_id == user_id) (values tokens))

unfoldable pub update_api_token : Uuid → String → Tokens → Tokens × Result ApiTokenRow
update_api_token id name tokens = elim (get id tokens) [
  | none ↦ (tokens, err not_found)
  | some t ↦ let renamed = record t { name = name } in (insert id renamed tokens, ok renamed)
]

unfoldable pub touch_api_token : Uuid → DateTime → Tokens → Tokens
touch_api_token id at tokens = elim (get id tokens) [
  | none ↦ tokens
  | some t ↦ insert id (record t { last_used_at = some at }) tokens
]

unfoldable pub delete_api_token : Uuid → Tokens → Tokens
delete_api_token id tokens = remove id tokens

unfoldable pub delete_api_tokens_for_user : Uuid → Tokens → Tokens × ℕ
delete_api_tokens_for_user user_id tokens =
    let kept = retain (λ t. not (t.user_id == user_id)) tokens in
    (kept, length tokens - length kept)

abbrev lasts : DateTime → Option DateTime → Bool
lasts cutoff none = true
lasts cutoff (some exp) = leb cutoff exp

unfoldable pub delete_expired_api_tokens : DateTime → Tokens → Tokens × ℕ
delete_expired_api_tokens cutoff tokens =
    let kept = retain (λ t. lasts cutoff t.expires_at) tokens in (kept, length tokens - length kept)
