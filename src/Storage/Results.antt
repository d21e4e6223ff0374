-- ===== src/Storage/Results.antt =====
-- Targets and check results of crates/storage/src/memory.rs.
use statuspage.Base.{
  ℕ, Bool, ◌&&◌, ◌==◌, is_some, List, [], ◌∷◌, ltb, leb, if◌then◌else◌, filter, take, length, ◌-◌,
}
use statuspage.Base.Dict.{get, insert, remove, values, Dict}
use statuspage.Base.Sort.{sort_by}
use statuspage.Domain.Time.{Uuid, DateTime}
use statuspage.Domain.Monitor.{Target, CheckResult}
use statuspage.Storage.Memory.{MemoryStorage, Result, ok, err, not_found, conflict, or_not_found}

unfoldable pub list_targets : MemoryStorage → List Target
list_targets m = sort_by (λ a b. ltb a.created_at b.created_at) (values m.targets)

unfoldable pub get_target : Uuid → MemoryStorage → Result Target
get_target id m = or_not_found (get id m.targets)

unfoldable pub create_target : Target → MemoryStorage → MemoryStorage × Result Target
create_target target m =
    if is_some (get target.id m.targets)
    then (m, err conflict)
    else (record m { targets = insert target.id target m.targets }, ok target)

unfoldable pub update_target : Target → MemoryStorage → MemoryStorage × Result Target
update_target target m =
    if is_some (get target.id m.targets)
    then (record m { targets = insert target.id target m.targets }, ok target)
    else (m, err not_found)

unfoldable pub delete_target : Uuid → MemoryStorage → MemoryStorage × Result (Unit {0})
delete_target id m =
    if is_some (get id m.targets)
    then (record m { targets = remove id m.targets }, ok tt)
    else (m, err not_found)

-- Same target and time: the entry is overwritten in place; otherwise the result is pushed.
unfoldable pub put_result : CheckResult → List CheckResult → List CheckResult
put_result result [] = result ∷ []
put_result result (r ∷ rs) =
    if r.target_id == result.target_id && r.timestamp == result.timestamp
    then result ∷ rs
    else r ∷ put_result result rs

unfoldable pub record_result : CheckResult → MemoryStorage → MemoryStorage
unfolding put_result
record_result result m = record m { results = put_result result m.results }

-- `sort_by_key(|r| Reverse(r.timestamp))`.
abbrev pub latest_first : CheckResult → CheckResult → Bool
latest_first a b = ltb b.timestamp a.timestamp

unfoldable pub list_results : Uuid → ℕ → MemoryStorage → List CheckResult
list_results target_id limit m =
    take limit (sort_by latest_first (filter (λ r. r.target_id == target_id) m.results))

unfoldable pub list_recent_results : ℕ → MemoryStorage → List CheckResult
list_recent_results limit m = take limit (sort_by latest_first m.results)

unfoldable pub batch_results :
    List Uuid → ℕ → MemoryStorage → Dict (List CheckResult) → Dict (List CheckResult)
batch_results [] limit m out = out
batch_results (tid ∷ tids) limit m out =
    let rows = take limit (sort_by latest_first (filter (λ r. r.target_id == tid) m.results)) in
    batch_results tids limit m (insert tid rows out)

unfoldable pub recent_results_for_targets : List Uuid → ℕ → MemoryStorage → Dict (List CheckResult)
unfolding batch_results
recent_results_for_targets target_ids limit m = batch_results target_ids limit m []

unfoldable pub delete_old_check_results : DateTime → MemoryStorage → MemoryStorage × ℕ
delete_old_check_results older_than m =
    let kept = filter (λ r. leb older_than r.timestamp) m.results in
    (record m { results = kept }, length m.results - length kept)
