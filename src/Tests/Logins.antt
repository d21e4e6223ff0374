-- ===== src/Tests/Logins.antt =====
-- The theorems on magic links at concrete inputs.
use statuspage.Base.{◌≤◌, ◌≡◌, refl, arith, none, some, [], ◌∷◌, text_eq, filter, find}
use statuspage.Base.Dict.{get, insert, retain, values}
use statuspage.Base.Sort.{sort_by}
use statuspage.Storage.Memory.{ok}
use statuspage.Storage.Accounts.{
  User, MagicLinkRow, Accounts, find_user_by_email, find_magic_links_by_prefix, lookup_session,
  consume_magic_link, delete_expired_magic_links,
}
use statuspage.Storage.Accounts.Once.{consume, purge, consumed_times, act, hands_out, consumed-once}
use statuspage.Server.Auth.{
  Hashes, SessionConfig, Draws, CreatedSession, slice_prefix, verify_magic_link,
}
use statuspage.Server.Auth.Expired.{verify_magic_link-expired}

abbrev ann : User
ann = record {
  id = 5;
  email = "ann@example.org";
  display_name = none;
  email_verified_at = none;
  last_seen_at = none;
  created_at = 0;
  updated_at = 0;
  deleted_at = none;
}

abbrev old_link : MagicLinkRow
old_link = record {
  id = 6;
  email = "ann@example.org";
  token_hash = "0123456789abcdefXY";
  token_prefix = "0123456789abcdef";
  created_at = 10;
  expires_at = 20;
  used_at = none;
  ip_hash = none;
  redirect_after = none;
}

abbrev accounts : Accounts
accounts = record { users = (5, ann) ∷ []; sessions = []; magic_links = (6, old_link) ∷ [] }

-- A hash is the text itself.
abbrev plain_hashes : Hashes
plain_hashes = record { verify = λ raw hash. text_eq raw hash; hash_cookie_value = λ value. value }

abbrev month : SessionConfig
month = record { absolute_timeout_days = 30; idle_timeout_days = 7 }

abbrev drawn : Draws
drawn = record { user_id = 7; cookie_value = "cookie" }

consumed-once_example :
    consumed_times (λ s. s) 6 (consume 30 6 ∷ purge 40 ∷ consume 50 6 ∷ []) accounts ≤ 1
unfolding get
consumed-once_example =
    consumed-once (λ s. s) 6 (consume 30 6 ∷ purge 40 ∷ consume 50 6 ∷ []) accounts (refl, tt)

consumed_then_refused :
    consumed_times (λ s. s) 6 (consume 30 6 ∷ purge 40 ∷ consume 50 6 ∷ []) accounts ≡ 1
unfolding consumed_times hands_out consume_magic_link get act delete_expired_magic_links retain
    insert
consumed_then_refused = refl

verify_magic_link-expired_example :
    (s : CreatedSession) × ((verify_magic_link plain_hashes
        (λ e. e)
        month
        500
        drawn
        "0123456789abcdefXY"
        accounts).1
      ≡ ok (some s))
    × (s.row.user_id ≡ 5)
unfolding find_magic_links_by_prefix sort_by filter values slice_prefix get find_user_by_email find
    lookup_session
verify_magic_link-expired_example =
    verify_magic_link-expired plain_hashes (λ e. e) month 500 drawn "0123456789abcdefXY" old_link []
      accounts ann (omega arith) refl refl refl refl refl refl
