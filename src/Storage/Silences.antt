-- ===== src/Storage/Silences.antt =====
-- The silence rules of crates/storage/src/memory.rs.
use statuspage.Base.{
  Bool, true, ◌&&◌, ◌==◌, Option, none, some, is_some, unwrap_or, List, String, ltb, leb,
  if◌then◌else◌, filter,
}
use statuspage.Base.Dict.{get, insert, remove, values}
use statuspage.Base.Sort.{sort_by}
use statuspage.Domain.Time.{Uuid, DateTime, in_window}
use statuspage.Domain.Status.{ui}
use statuspage.Domain.Silence.{
  SilenceRule, NewSilenceRule, SilenceRuleUpdate, SilenceFilter, active, upcoming, past, all,
  is_active_at,
}
use statuspage.Storage.Memory.{
  MemoryStorage, Result, ok, err, not_found, conflict, invalid_input, or_not_found,
}

abbrev pub rule_passes : SilenceFilter → DateTime → SilenceRule → Bool
rule_passes active now r = in_window r.starts_at r.ends_at now
rule_passes upcoming now r = ltb now r.starts_at
rule_passes past now r = leb r.ends_at now
rule_passes all now r = true

unfoldable pub list_silence_rules : DateTime → SilenceFilter → MemoryStorage → List SilenceRule
list_silence_rules now f m =
    sort_by (λ a b. ltb a.starts_at b.starts_at)
      (filter (rule_passes f now) (values m.silence_rules))

unfoldable pub get_silence_rule : Uuid → MemoryStorage → Result SilenceRule
get_silence_rule id m = or_not_found (get id m.silence_rules)

-- The id that `Uuid::new_v4()` draws is an argument.
unfoldable pub create_silence_rule :
    DateTime → Uuid → NewSilenceRule → MemoryStorage → MemoryStorage × Result SilenceRule
create_silence_rule now id new_rule m =
    let rule : SilenceRule = record {
      id = id;
      title = new_rule.title;
      description = new_rule.description;
      target_id = new_rule.target_id;
      channel_id = new_rule.channel_id;
      reasons = new_rule.reasons;
      starts_at = new_rule.starts_at;
      ends_at = new_rule.ends_at;
      created_at = now;
      updated_at = now;
      write_source = ui;
    } in
    if is_some (get id m.silence_rules)
    then (m, err conflict)
    else (record m { silence_rules = insert id rule m.silence_rules }, ok rule)

abbrev pub patch_description : Option String → Option String → Option String
patch_description none old = old
patch_description (some d) old = some d

unfoldable pub patched : DateTime → SilenceRuleUpdate → SilenceRule → SilenceRule
patched now update rule = record rule {
  title = unwrap_or update.title rule.title;
  description = patch_description update.description rule.description;
  target_id = unwrap_or update.target_id rule.target_id;
  channel_id = unwrap_or update.channel_id rule.channel_id;
  reasons = unwrap_or update.reasons rule.reasons;
  starts_at = unwrap_or update.starts_at rule.starts_at;
  ends_at = unwrap_or update.ends_at rule.ends_at;
  updated_at = now;
}

-- The window after the patch is checked before any field is set.
unfoldable pub update_silence_rule :
    DateTime → Uuid → SilenceRuleUpdate → MemoryStorage → MemoryStorage × Result SilenceRule
unfolding patched
update_silence_rule now id update m = elim (get id m.silence_rules) [
  | none ↦ (m, err not_found)
  | some rule ↦
      if leb (unwrap_or update.ends_at rule.ends_at) (unwrap_or update.starts_at rule.starts_at)
      then (m, err invalid_input)
      else (
        record m { silence_rules = insert id (patched now update rule) m.silence_rules },
        ok (patched now update rule),
      )
]

unfoldable pub delete_silence_rule : Uuid → MemoryStorage → MemoryStorage × Result (Unit {0})
delete_silence_rule id m =
    if is_some (get id m.silence_rules)
    then (record m { silence_rules = remove id m.silence_rules }, ok tt)
    else (m, err not_found)

abbrev pub aims_at : Uuid → Option Uuid → Bool
aims_at target_id none = true
aims_at target_id (some t) = t == target_id

unfoldable pub list_active_silences_for_target : DateTime → Uuid → MemoryStorage → List SilenceRule
list_active_silences_for_target now target_id m =
    sort_by (λ a b. ltb a.starts_at b.starts_at)
      (filter (λ r. is_active_at r now && aims_at target_id r.target_id) (values m.silence_rules))
