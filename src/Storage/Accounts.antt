-- ===== src/Storage/Accounts.antt =====
-- The users, sessions and magic links of crates/storage/src/memory.rs, with the rows of
-- crates/core/src/domain/{user,session,magic_link}.rs. A user's display preferences are left out. Each
-- operation takes one lock; the time and the ids that it draws are arguments.
pub mod Once
use statuspage.Base.{
  ℕ, ◌-◌, Bool, not, ◌&&◌, ltb, leb, ◌==◌, if◌then◌else◌, Option, none, some, is_none, is_some,
  String, List, [], ◌∷◌, map, length, find, filter, any, text_eq,
}
use statuspage.Base.Dict.{Dict, get, insert, retain, values}
use statuspage.Base.Sort.{sort_by}
use statuspage.Domain.Time.{Uuid, DateTime}
use statuspage.Storage.Memory.{Result, ok, err, conflict}

pub record User : Type 0 where
  pub id : Uuid
  pub email : String
  pub display_name : Option String
  pub email_verified_at : Option DateTime
  pub last_seen_at : Option DateTime
  pub created_at : DateTime
  pub updated_at : DateTime
  pub deleted_at : Option DateTime

pub record NewUser : Type 0 where
  pub email : String
  pub display_name : Option String
  pub email_verified : Bool

pub record SessionRow : Type 0 where
  pub id_hash : String
  pub user_id : Uuid
  pub created_at : DateTime
  pub last_used_at : DateTime
  pub expires_at : DateTime
  pub ip_hash : Option String
  pub user_agent_hash : Option String

pub record NewSession : Type 0 where
  pub user_id : Uuid
  pub expires_at : DateTime
  pub ip_hash : Option String
  pub user_agent_hash : Option String

pub record MagicLinkRow : Type 0 where
  pub id : Uuid
  pub email : String
  pub token_hash : String
  pub token_prefix : String
  pub created_at : DateTime
  pub expires_at : DateTime
  pub used_at : Option DateTime
  pub ip_hash : Option String
  pub redirect_after : Option String

-- The sessions are the map from `id_hash` to its row, as the list of the rows.
pub record Accounts : Type 0 where
  pub users : Dict User
  pub sessions : List SessionRow
  pub magic_links : Dict MagicLinkRow

-- The form in which emails are compared, by the standard library's trimming and lower case.
abbrev pub Normalize : Type 0
Normalize = String → String

abbrev has_email : String → User → Bool
has_email email u = text_eq u.email email && is_none u.deleted_at

unfoldable pub create_user :
    Normalize → DateTime → Uuid → NewUser → Accounts → Accounts × Result User
create_user normalize now id new a =
    let email = normalize new.email in
    let user : User = record {
      id = id;
      email = email;
      display_name = new.display_name;
      email_verified_at = if new.email_verified then some now else none;
      last_seen_at = none;
      created_at = now;
      updated_at = now;
      deleted_at = none;
    } in
    if any (has_email email) (values a.users)
    then (a, err conflict)
    else (record a { users = insert id user a.users }, ok user)

unfoldable pub find_user_by_email : Normalize → String → Accounts → Option User
find_user_by_email normalize email a = find (has_email (normalize email)) (values a.users)

abbrev has_hash : String → SessionRow → Bool
has_hash id_hash s = text_eq s.id_hash id_hash

unfoldable pub lookup_session : String → Accounts → Option SessionRow
lookup_session id_hash a = find (has_hash id_hash) a.sessions

unfoldable pub create_session :
    DateTime → String → NewSession → Accounts → Accounts × Result SessionRow
unfolding lookup_session
create_session now id_hash new a =
    let row : SessionRow = record {
      id_hash = id_hash;
      user_id = new.user_id;
      created_at = now;
      last_used_at = now;
      expires_at = new.expires_at;
      ip_hash = new.ip_hash;
      user_agent_hash = new.user_agent_hash;
    } in
    if is_some (lookup_session id_hash a)
    then (a, err conflict)
    else (record a { sessions = row ∷ a.sessions }, ok row)

unfoldable pub touch_session : String → DateTime → Accounts → Accounts
touch_session id_hash at a = record a {
  sessions = map (λ s. if has_hash id_hash s then record s { last_used_at = at } else s) a.sessions;
}

unfoldable pub delete_session : String → Accounts → Accounts
delete_session id_hash a = record a { sessions = filter (λ s. not (has_hash id_hash s)) a.sessions }

unfoldable pub delete_other_sessions : Uuid → String → Accounts → Accounts × ℕ
delete_other_sessions user_id keep_id_hash a =
    let kept =
      filter (λ s. not (s.user_id == user_id && not (has_hash keep_id_hash s))) a.sessions in
    (record a { sessions = kept }, length a.sessions - length kept)

unfoldable pub list_sessions : Uuid → Accounts → List SessionRow
list_sessions user_id a =
    sort_by (λ s t. ltb t.created_at s.created_at) (filter (λ s. s.user_id == user_id) a.sessions)

unfoldable pub delete_expired_sessions : DateTime → Accounts → Accounts × ℕ
delete_expired_sessions now a =
    let kept = filter (λ s. leb now s.expires_at) a.sessions in
    (record a { sessions = kept }, length a.sessions - length kept)

unfoldable pub create_magic_link :
    Normalize
    → DateTime
    → Uuid
    → String
    → String
    → String
    → DateTime
    → Option String
    → Option String
    → Accounts
    → Accounts × Result MagicLinkRow
create_magic_link normalize now id email token_hash token_prefix expires_at ip_hash redirect_after
      a =
    let row : MagicLinkRow = record {
      id = id;
      email = normalize email;
      token_hash = token_hash;
      token_prefix = token_prefix;
      created_at = now;
      expires_at = expires_at;
      used_at = none;
      ip_hash = ip_hash;
      redirect_after = redirect_after;
    } in
    if is_some (get id a.magic_links)
    then (a, err conflict)
    else (record a { magic_links = insert id row a.magic_links }, ok row)

unfoldable pub find_magic_links_by_prefix : String → Accounts → List MagicLinkRow
find_magic_links_by_prefix prefix a =
    sort_by (λ m n. ltb n.created_at m.created_at)
      (filter (λ m. text_eq m.token_prefix prefix && is_none m.used_at) (values a.magic_links))

-- An unused link is marked as used.
abbrev pub consume_unused :
    DateTime → Uuid → Accounts → MagicLinkRow → Option DateTime → Accounts × Option MagicLinkRow
consume_unused now id a link (some t) = (a, none)
consume_unused now id a link none =
    let used = record link { used_at = some now } in
    (record a { magic_links = insert id used a.magic_links }, some used)

abbrev pub consume_found :
    DateTime → Uuid → Accounts → Option MagicLinkRow → Accounts × Option MagicLinkRow
consume_found now id a none = (a, none)
consume_found now id a (some link) = consume_unused now id a link link.used_at

unfoldable pub consume_magic_link : DateTime → Uuid → Accounts → Accounts × Option MagicLinkRow
consume_magic_link now id a = consume_found now id a (get id a.magic_links)

unfoldable pub delete_expired_magic_links : DateTime → Accounts → Accounts × ℕ
delete_expired_magic_links now a =
    let kept = retain (λ m. not (ltb m.expires_at now && is_none m.used_at)) a.magic_links in
    (record a { magic_links = kept }, length a.magic_links - length kept)
