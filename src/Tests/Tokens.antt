-- ===== src/Tests/Tokens.antt =====
-- The theorem on API tokens at a concrete input: a token whose time is over, and a later one that fits.
use statuspage.Base.{Bool, any, none, some, [], ◌∷◌, ◌≡◌, refl, text_eq, filter}
use statuspage.Base.Dict.{values}
use statuspage.Base.Sort.{sort_by}
use statuspage.Domain.Scope.{full_access, grants, targets_read, targets_write, scope_as_str}
use statuspage.Storage.Tokens.{Tokens, ApiTokenRow, find_api_tokens_by_prefix}
use statuspage.Server.Auth.{slice_prefix}
use statuspage.Server.Auth.Tokens.{active, lookup_api_token, first_active}
use statuspage.Server.Auth.Tokens.Lookup.{Decides, Accepts, lookup_api_token-Decides}

abbrev old_token : ApiTokenRow
old_token = record {
  id = 1;
  user_id = 5;
  name = "old";
  token_hash = "sm_live_01234567ab";
  token_prefix = "sm_live_01234567";
  scopes = full_access ∷ [];
  created_at = 10;
  last_used_at = none;
  expires_at = some 20;
}

abbrev new_token : ApiTokenRow
new_token = record {
  id = 2;
  user_id = 5;
  name = "new";
  token_hash = "sm_live_01234567ab";
  token_prefix = "sm_live_01234567";
  scopes = targets_write ∷ [];
  created_at = 15;
  last_used_at = none;
  expires_at = none;
}

abbrev tokens : Tokens
tokens = (1, old_token) ∷ (2, new_token) ∷ []

new_token_found :
    lookup_api_token (λ raw hash. text_eq raw hash) 30 "sm_live_01234567ab" tokens
    ≡ active new_token
unfolding lookup_api_token first_active find_api_tokens_by_prefix sort_by filter values slice_prefix
new_token_found = refl

lookup_api_token-Decides_example :
    Decides
      (λ raw hash. text_eq raw hash)
      30
      "sm_live_01234567ab"
      (Accepts (λ raw hash. text_eq raw hash) 30 "sm_live_01234567ab")
      (values tokens)
      (lookup_api_token (λ raw hash. text_eq raw hash) 30 "sm_live_01234567ab" tokens)
lookup_api_token-Decides_example =
    lookup_api_token-Decides (λ raw hash. text_eq raw hash) 30 "sm_live_01234567ab" tokens

write_implies_read : grants (targets_write ∷ []) targets_read ≡ Bool.true
unfolding grants any scope_as_str
write_implies_read = refl
