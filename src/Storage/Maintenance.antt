-- ===== src/Storage/Maintenance.antt =====
-- The maintenance windows of crates/storage/src/memory.rs.
use statuspage.Base.{
  Bool, true, ◌&&◌, ◌==◌, is_some, List, ltb, leb, if◌then◌else◌, filter, any, true,
}
use statuspage.Base.Dict.{get, insert, remove, values}
use statuspage.Base.Sort.{sort_by}
use statuspage.Domain.Time.{Uuid, DateTime, in_window}
use statuspage.Domain.Maintenance.{
  MaintenanceWindow, MaintenanceFilter, active, upcoming, past, all,
}
use statuspage.Storage.Memory.{MemoryStorage, Result, ok, err, not_found, conflict, or_not_found}

abbrev pub window_passes : MaintenanceFilter → DateTime → MaintenanceWindow → Bool
window_passes active now w = in_window w.starts_at w.ends_at now
window_passes upcoming now w = ltb now w.starts_at
window_passes past now w = leb w.ends_at now
window_passes all now w = true

unfoldable pub list_maintenance_windows :
    DateTime → MaintenanceFilter → MemoryStorage → List MaintenanceWindow
list_maintenance_windows now f m =
    sort_by (λ a b. ltb a.starts_at b.starts_at)
      (filter (window_passes f now) (values m.maintenance_windows))

unfoldable pub get_maintenance_window : Uuid → MemoryStorage → Result MaintenanceWindow
get_maintenance_window id m = or_not_found (get id m.maintenance_windows)

unfoldable pub create_maintenance_window :
    MaintenanceWindow → MemoryStorage → MemoryStorage × Result MaintenanceWindow
create_maintenance_window window m =
    if is_some (get window.id m.maintenance_windows) then (m, err conflict) else (
      record m { maintenance_windows = insert window.id window m.maintenance_windows },
      ok window,
    )

unfoldable pub update_maintenance_window :
    MaintenanceWindow → MemoryStorage → MemoryStorage × Result MaintenanceWindow
update_maintenance_window window m =
    if is_some (get window.id m.maintenance_windows)
    then (
      record m { maintenance_windows = insert window.id window m.maintenance_windows },
      ok window,
    )
    else (m, err not_found)

unfoldable pub delete_maintenance_window : Uuid → MemoryStorage → MemoryStorage × Result (Unit {0})
delete_maintenance_window id m =
    if is_some (get id m.maintenance_windows)
    then (record m { maintenance_windows = remove id m.maintenance_windows }, ok tt)
    else (m, err not_found)

abbrev pub covers_target : DateTime → Uuid → MaintenanceWindow → Bool
covers_target now target_id w =
    in_window w.starts_at w.ends_at now && any (λ c. c == target_id) w.component_ids

unfoldable pub is_target_in_active_maintenance : DateTime → Uuid → MemoryStorage → Bool
is_target_in_active_maintenance now target_id m =
    any (covers_target now target_id) (values m.maintenance_windows)
