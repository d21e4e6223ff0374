-- ===== src/Server/Auth.antt =====
-- The sessions and magic links of bin/status-server/src/auth/service.rs. The hashes are a parameter, and
-- so are the cookie value and the user id that are drawn.
pub mod Expired
pub mod Tokens
use Prim.Native.String
use statuspage.Base.{
  ℕ, zero, suc, ◌+◌, ◌*◌, Bool, false, ltb, if◌then◌else◌, Option, none, some, String, List, [],
  ◌∷◌,
}
use statuspage.Domain.Time.{Uuid, DateTime, nanos, secs_between}
use statuspage.Storage.Memory.{Result, ok, err}
use statuspage.Storage.Accounts.{
  Accounts, User, SessionRow, MagicLinkRow, Normalize, find_user_by_email, create_user,
  create_session, find_magic_links_by_prefix, consume_magic_link,
}
use statuspage.Storage.Accounts

-- `token_hash::verify` and `hash_cookie_value`.
pub record Hashes : Type 0 where
  pub verify : String → String → Bool
  pub hash_cookie_value : String → String

pub record SessionConfig : Type 0 where
  pub absolute_timeout_days : ℕ
  pub idle_timeout_days : ℕ

abbrev pub days : ℕ → ℕ
days n = n * 86400 * nanos

abbrev pub touch_debounce_secs : ℕ
touch_debounce_secs = 60

-- The first characters of an ASCII token.
unfoldable pub slice_prefix : String → ℕ → String
slice_prefix s zero = ""
slice_prefix String.[] (suc n) = ""
slice_prefix (String.◌∷◌ c s) (suc n) = String.◌∷◌ c (slice_prefix s n)

pub record CreatedSession : Type 0 where
  pub cookie_value : String
  pub row : SessionRow

pub data SessionLookupOutcome : Type 0 where
  active : SessionRow → SessionLookupOutcome
  expired missing : SessionLookupOutcome

-- What a login draws.
pub record Draws : Type 0 where
  pub user_id : Uuid
  pub cookie_value : String

module _ (hashes : Hashes) (normalize : Normalize) (config : SessionConfig) (now : DateTime)
    (draws : Draws) where
  abbrev with_cookie : Accounts × Result SessionRow → Accounts × Result (Option CreatedSession)
  with_cookie (a, err e) = (a, err e)
  with_cookie (a, ok row) = (a, ok (some (record { cookie_value = draws.cookie_value; row = row })))

  unfoldable pub create_session_for : Uuid → Accounts → Accounts × Result (Option CreatedSession)
  create_session_for user_id a = with_cookie (
      create_session now (hashes.hash_cookie_value draws.cookie_value)
        (record {
          user_id = user_id;
          expires_at = now + days config.absolute_timeout_days;
          ip_hash = none;
          user_agent_hash = none;
        })
        a)

  -- The user who logs in for the first time is created.
  abbrev with_user : MagicLinkRow → Accounts → Option User → Accounts × Result User
  with_user link a (some u) = (a, ok u)
  with_user link a none =
      create_user normalize now draws.user_id
        (record { email = link.email; display_name = none; email_verified = Bool.true }) a

  abbrev session_of : Accounts × Result User → Accounts × Result (Option CreatedSession)
  session_of (a, err e) = (a, err e)
  session_of (a, ok u) = create_session_for u.id a

  -- The link was consumed, or had been already.
  abbrev log_in : Accounts × Option MagicLinkRow → Accounts × Result (Option CreatedSession)
  log_in (a, none) = (a, ok none)
  log_in (a, some link) = session_of (with_user link a (find_user_by_email normalize link.email a))

  -- The first candidate whose hash fits decides.
  unfoldable pub try_candidates :
      String → List MagicLinkRow → Accounts → Accounts × Result (Option CreatedSession)
  unfolding create_session_for
  try_candidates raw [] a = (a, ok none)
  try_candidates raw (row ∷ rows) a =
      let rest = try_candidates raw rows a in
      if hashes.verify raw row.token_hash then log_in (consume_magic_link now row.id a) else rest

  unfoldable pub verify_magic_link : String → Accounts → Accounts × Result (Option CreatedSession)
  unfolding try_candidates slice_prefix
  verify_magic_link raw a =
      try_candidates raw (find_magic_links_by_prefix (slice_prefix raw 16) a) a

abbrev in_time : SessionConfig → DateTime → SessionRow → SessionLookupOutcome
in_time config now row =
    if ltb row.expires_at now
    then expired
    else if ltb (row.last_used_at + days config.idle_timeout_days) now
    then expired
    else active row

unfoldable pub lookup_session :
    Hashes → SessionConfig → DateTime → String → Accounts → SessionLookupOutcome
lookup_session hashes config now cookie_value a =
    elim (Accounts.lookup_session (hashes.hash_cookie_value cookie_value) a) [
      | none ↦ missing
      | some row ↦ in_time config now row
    ]

unfoldable pub touch_session : DateTime → SessionRow → Accounts → Accounts
touch_session now row a =
    if ltb (secs_between row.last_used_at now) touch_debounce_secs
    then a
    else Accounts.touch_session row.id_hash now a

unfoldable pub destroy_session : Hashes → String → Accounts → Accounts
destroy_session hashes cookie_value a =
    Accounts.delete_session (hashes.hash_cookie_value cookie_value) a
