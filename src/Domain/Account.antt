-- ===== src/Domain/Account.antt =====
-- The roles of crates/core/src/domain/membership.rs and the providers of oauth.rs, with their texts.
use statuspage.Base.{Option, none, some, String, text_eq, if◌then◌else◌}

pub data Role : Type 0 where
  owner member : Role

unfoldable pub role_as_db_str : Role → String
role_as_db_str owner = "owner"
role_as_db_str member = "member"

unfoldable pub role_from_db_str : String → Option Role
role_from_db_str s =
    if text_eq s "owner" then some owner else if text_eq s "member" then some member else none

pub data OauthProvider : Type 0 where
  github google : OauthProvider

unfoldable pub provider_as_db_str : OauthProvider → String
provider_as_db_str github = "github"
provider_as_db_str google = "google"

unfoldable pub provider_from_db_str : String → Option OauthProvider
provider_from_db_str s =
    if text_eq s "github" then some github else if text_eq s "google" then some google else none
