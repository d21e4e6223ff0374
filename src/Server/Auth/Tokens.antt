-- ===== src/Server/Auth/Tokens.antt =====
-- The API tokens of bin/status-server/src/auth/service.rs. The hashes are a parameter, and so is the raw
-- token that is drawn.
pub mod Lookup
use statuspage.Base.{
  Bool, true, false, ltb, if◌then◌else◌, Option, none, some, String, List, [], ◌∷◌, text_eq,
}
use statuspage.Domain.Time.{Uuid, DateTime, secs_between}
use statuspage.Storage.Memory.{Result, ok, err}
use statuspage.Storage.Tokens.{Tokens, ApiTokenRow, NewApiToken, find_api_tokens_by_prefix}
use statuspage.Storage.Tokens
use statuspage.Server.Auth.{slice_prefix, touch_debounce_secs}

pub data ApiTokenLookupOutcome : Type 0 where
  active : ApiTokenRow → ApiTokenLookupOutcome
  invalid : ApiTokenLookupOutcome

abbrev pub api_token_prefix : String
api_token_prefix = "sm_live_"

abbrev pub starts_as_token : String → Bool
starts_as_token raw = text_eq (slice_prefix raw 8) api_token_prefix

-- Whether the time of a token is over.
unfoldable pub is_over : DateTime → Option DateTime → Bool
is_over now none = false
is_over now (some exp) = ltb exp now

-- The first candidate in time whose hash fits is the token.
unfoldable pub first_active :
    (String → String → Bool) → DateTime → String → List ApiTokenRow → ApiTokenLookupOutcome
unfolding is_over
first_active verify now raw [] = invalid
first_active verify now raw (row ∷ rows) =
    let rest = first_active verify now raw rows in
    if is_over now row.expires_at
    then rest
    else if verify raw row.token_hash
    then active row
    else rest

unfoldable pub lookup_api_token :
    (String → String → Bool) → DateTime → String → Tokens → ApiTokenLookupOutcome
unfolding first_active
lookup_api_token verify now raw tokens =
    if starts_as_token raw
    then first_active verify now raw (find_api_tokens_by_prefix (slice_prefix raw 16) tokens)
    else invalid

-- `raw` and its hash are drawn. Here and in `rename_api_token` the source leaves the hash out of the row
-- that it returns, and creation returns `raw` with it.
unfoldable pub create_api_token :
    DateTime → Uuid → String → String → Uuid → NewApiToken → Tokens → Tokens × Result ApiTokenRow
create_api_token now id raw hash user_id new tokens =
    Tokens.create_api_token now id user_id new hash (slice_prefix raw 16) tokens

unfoldable pub rename_api_token : Uuid → Uuid → String → Tokens → Tokens × Result ApiTokenRow
rename_api_token user_id id new_name tokens = Tokens.update_api_token id new_name tokens

unfoldable pub delete_api_token : Uuid → Uuid → Tokens → Tokens
delete_api_token user_id id tokens = Tokens.delete_api_token id tokens

abbrev touched : DateTime → ApiTokenRow → Tokens → Option DateTime → Tokens
touched now row tokens none = Tokens.touch_api_token row.id now tokens
touched now row tokens (some last) =
    if ltb (secs_between last now) touch_debounce_secs
    then tokens
    else Tokens.touch_api_token row.id now tokens

unfoldable pub touch_api_token : DateTime → ApiTokenRow → Tokens → Tokens
touch_api_token now row tokens = touched now row tokens row.last_used_at
