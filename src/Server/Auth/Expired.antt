-- ===== src/Server/Auth/Expired.antt =====
-- `verify_magic_link` of bin/status-server/src/auth/service.rs on a link whose time is over.
use statuspage.Base.{◌+◌, ◌<◌, ◌≡◌, refl, ap, ◌∙◌, true, none, some, String, List, ◌∷◌}
use statuspage.Base.Dict.{get}
use statuspage.Domain.Time.{Uuid, DateTime}
use statuspage.Storage.Memory.{ok}
use statuspage.Storage.Accounts
use statuspage.Storage.Accounts.{
  User, Accounts, MagicLinkRow, Normalize, find_user_by_email, find_magic_links_by_prefix,
  consume_found, consume_unused, consume_magic_link, create_session, SessionRow,
}
use statuspage.Server.Auth.{
  Hashes, SessionConfig, CreatedSession, Draws, slice_prefix, create_session_for, try_candidates,
  verify_magic_link, log_in, session_of, with_user, days,
}

module _ (hashes : Hashes) (normalize : Normalize) (config : SessionConfig) (now : DateTime)
    (draws : Draws) where
  try-head :
      (raw : String) (link : MagicLinkRow) (rest : List MagicLinkRow) (a : Accounts)
      → hashes.verify raw link.token_hash ≡ true
      → try_candidates hashes normalize config now draws raw (link ∷ rest) a
        ≡ log_in hashes normalize config now draws (consume_magic_link now link.id a)
  unfolding try_candidates
  try-head raw link rest a fits = rw fits refl

  consume-unused :
      (link : MagicLinkRow) (a : Accounts)
      → get link.id a.magic_links ≡ some link
      → link.used_at ≡ none
      → consume_magic_link now link.id a ≡ consume_unused now link.id a link none
  unfolding consume_magic_link
  consume-unused link a there fresh =
      ap (consume_found now link.id a) there ∙ ap (consume_unused now link.id a link) fresh

  -- A session of the user is created.
  session-of_user :
      (user_id : Uuid) (a : Accounts)
      → Accounts.lookup_session (hashes.hash_cookie_value draws.cookie_value) a ≡ none
      → (s : CreatedSession) × ((create_session_for hashes normalize config now draws user_id a).1
          ≡ ok (some s))
        × (s.row.user_id ≡ user_id)
  unfolding create_session_for create_session
  session-of_user user_id a free =
      let row : SessionRow = record {
        id_hash = hashes.hash_cookie_value draws.cookie_value;
        user_id = user_id;
        created_at = now;
        last_used_at = now;
        expires_at = now + days config.absolute_timeout_days;
        ip_hash = none;
        user_agent_hash = none;
      } in
      let s : CreatedSession = record { cookie_value = draws.cookie_value; row = row } in
      (s, rw (free, create_session) refl, refl)

  consumed : MagicLinkRow → Accounts → Accounts
  consumed link a = (consume_unused now link.id a link none).0

  known-user :
      (link : MagicLinkRow) (a : Accounts) (u : User)
      → find_user_by_email normalize link.email a ≡ some u
      → log_in hashes normalize config now draws (consume_unused now link.id a link none)
        ≡ create_session_for hashes normalize config now draws u.id (consumed link a)
  unfolding consumed find_user_by_email
  known-user link a u known =
      ap
        (λ o.
          session_of hashes normalize config now draws
            (with_user hashes normalize config now draws link (consumed link a) o))
        known

  verify-steps :
      (raw : String) (link : MagicLinkRow) (rest : List MagicLinkRow) (a : Accounts) (u : User)
      → find_magic_links_by_prefix (slice_prefix raw 16) a ≡ link ∷ rest
      → hashes.verify raw link.token_hash ≡ true
      → get link.id a.magic_links ≡ some link
      → link.used_at ≡ none
      → find_user_by_email normalize link.email a ≡ some u
      → verify_magic_link hashes normalize config now draws raw a
        ≡ create_session_for hashes normalize config now draws u.id (consumed link a)
  unfolding verify_magic_link
  verify-steps raw link rest a u first fits there fresh known =
      ap (λ ls. try_candidates hashes normalize config now draws raw ls a) first
      ∙ (try-head raw link rest a fits
          ∙ (ap (log_in hashes normalize config now draws) (consume-unused link a there fresh)
              ∙ known-user link a u known))

  consumed-session_free :
      (link : MagicLinkRow) (a : Accounts) (id_hash : String)
      → Accounts.lookup_session id_hash (consumed link a) ≡ Accounts.lookup_session id_hash a
  unfolding consumed Accounts.lookup_session
  consumed-session_free link a id_hash = refl

-- A link whose time is over is accepted as long as it was not used: if it is the newest unused one with
-- the prefix of the token and its hash fits, the user of its email, who exists, gets a session.
pub verify_magic_link-expired :
    (hashes : Hashes) (normalize : Normalize) (config : SessionConfig) (now : DateTime)
    (draws : Draws) (raw : String) (link : MagicLinkRow) (rest : List MagicLinkRow) (a : Accounts)
    (u : User)
    → link.expires_at < now
    → find_magic_links_by_prefix (slice_prefix raw 16) a ≡ link ∷ rest
    → hashes.verify raw link.token_hash ≡ true
    → get link.id a.magic_links ≡ some link
    → link.used_at ≡ none
    → find_user_by_email normalize link.email a ≡ some u
    → Accounts.lookup_session (hashes.hash_cookie_value draws.cookie_value) a ≡ none
    → (s : CreatedSession) × ((verify_magic_link hashes normalize config now draws raw a).1
        ≡ ok (some s))
      × (s.row.user_id ≡ u.id)
verify_magic_link-expired hashes normalize config now draws raw link rest a u over first fits there
      fresh known free =
    let id_hash = hashes.hash_cookie_value draws.cookie_value in
    let spare = consumed-session_free hashes normalize config now draws link a id_hash ∙ free in
    let (s, given, whose) =
      session-of_user hashes normalize config now draws u.id
        (consumed hashes normalize config now draws link a) spare in
    (
      s,
      ap (λ r. r.1)
            (verify-steps hashes normalize config now draws raw link rest a u first fits there fresh
              known)
          ∙ given,
      whose,
    )
