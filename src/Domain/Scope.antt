-- ===== src/Domain/Scope.antt =====
-- crates/core/src/domain/api_token.rs: the scopes of an API token and what a set of them grants.
use statuspage.Base.{
  Bool, false, ◌||◌, if◌then◌else◌, Option, none, some, String, List, ◌≡◌, refl, any, text_eq,
}

pub data Scope : Type 0 where
  targets_read targets_write targets_delete targets_execute : Scope
  channels_read channels_write channels_delete : Scope
  incidents_read incidents_write oncall_read oncall_write : Scope
  maintenance_read maintenance_write maintenance_delete : Scope
  status_page_read status_page_write status_page_delete : Scope
  variables_read variables_write full_access : Scope

unfoldable pub scope_as_str : Scope → String
scope_as_str targets_read = "targets:read"
scope_as_str targets_write = "targets:write"
scope_as_str targets_delete = "targets:delete"
scope_as_str targets_execute = "targets:execute"
scope_as_str channels_read = "channels:read"
scope_as_str channels_write = "channels:write"
scope_as_str channels_delete = "channels:delete"
scope_as_str incidents_read = "incidents:read"
scope_as_str incidents_write = "incidents:write"
scope_as_str oncall_read = "oncall:read"
scope_as_str oncall_write = "oncall:write"
scope_as_str maintenance_read = "maintenance:read"
scope_as_str maintenance_write = "maintenance:write"
scope_as_str maintenance_delete = "maintenance:delete"
scope_as_str status_page_read = "status_page:read"
scope_as_str status_page_write = "status_page:write"
scope_as_str status_page_delete = "status_page:delete"
scope_as_str variables_read = "variables:read"
scope_as_str variables_write = "variables:write"
scope_as_str full_access = "full_access"

unfoldable pub scope_parse_str : String → Option Scope
scope_parse_str s =
    if text_eq s "targets:read"
    then some targets_read
    else if text_eq s "targets:write"
    then some targets_write
    else if text_eq s "targets:delete"
    then some targets_delete
    else if text_eq s "targets:execute"
    then some targets_execute
    else if text_eq s "channels:read"
    then some channels_read
    else if text_eq s "channels:write"
    then some channels_write
    else if text_eq s "channels:delete"
    then some channels_delete
    else if text_eq s "incidents:read"
    then some incidents_read
    else if text_eq s "incidents:write"
    then some incidents_write
    else if text_eq s "oncall:read"
    then some oncall_read
    else if text_eq s "oncall:write"
    then some oncall_write
    else if text_eq s "maintenance:read"
    then some maintenance_read
    else if text_eq s "maintenance:write"
    then some maintenance_write
    else if text_eq s "maintenance:delete"
    then some maintenance_delete
    else if text_eq s "status_page:read"
    then some status_page_read
    else if text_eq s "status_page:write"
    then some status_page_write
    else if text_eq s "status_page:delete"
    then some status_page_delete
    else if text_eq s "variables:read"
    then some variables_read
    else if text_eq s "variables:write"
    then some variables_write
    else if text_eq s "full_access"
    then some full_access
    else none

-- A scope is read back from its text.
scope_parse_str-scope_as_str : (s : Scope) → scope_parse_str (scope_as_str s) ≡ some s
unfolding scope_parse_str scope_as_str
scope_parse_str-scope_as_str targets_read = refl
scope_parse_str-scope_as_str targets_write = refl
scope_parse_str-scope_as_str targets_delete = refl
scope_parse_str-scope_as_str targets_execute = refl
scope_parse_str-scope_as_str channels_read = refl
scope_parse_str-scope_as_str channels_write = refl
scope_parse_str-scope_as_str channels_delete = refl
scope_parse_str-scope_as_str incidents_read = refl
scope_parse_str-scope_as_str incidents_write = refl
scope_parse_str-scope_as_str oncall_read = refl
scope_parse_str-scope_as_str oncall_write = refl
scope_parse_str-scope_as_str maintenance_read = refl
scope_parse_str-scope_as_str maintenance_write = refl
scope_parse_str-scope_as_str maintenance_delete = refl
scope_parse_str-scope_as_str status_page_read = refl
scope_parse_str-scope_as_str status_page_write = refl
scope_parse_str-scope_as_str status_page_delete = refl
scope_parse_str-scope_as_str variables_read = refl
scope_parse_str-scope_as_str variables_write = refl
scope_parse_str-scope_as_str full_access = refl

-- The scope that implies a reading scope.
abbrev write_scope : Scope → Option Scope
write_scope targets_read = some targets_write
write_scope channels_read = some channels_write
write_scope incidents_read = some incidents_write
write_scope oncall_read = some oncall_write
write_scope maintenance_read = some maintenance_write
write_scope status_page_read = some status_page_write
write_scope variables_read = some variables_write
write_scope _ = none

abbrev contains : Scope → List Scope → Bool
contains s scopes = any (λ t. text_eq (scope_as_str t) (scope_as_str s)) scopes

abbrev granted_by : List Scope → Option Scope → Bool
granted_by scopes none = false
granted_by scopes (some w) = contains w scopes

unfoldable pub grants : List Scope → Scope → Bool
grants scopes required =
    contains full_access scopes
    || contains required scopes
    || granted_by scopes (write_scope required)
