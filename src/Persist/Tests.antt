-- ===== src/Persist/Tests.antt =====
-- Runs on a list of two remembered buses.
use vanilla_bus.Prelude.{◌≡◌, List, [], ◌∷◌, none, Text, codes, All}
use vanilla_bus.Prelude.Int.{pos}
use vanilla_bus.Prelude.Assoc.{IsDistinct}
use vanilla_bus.Engine.Value.{Value, integral, number, string, array, object, item, nil, field, end}
use vanilla_bus.Persist.Samples.{
  two_buses, two_buses-IsHints, saved, saved-IsSnapshot, saved-IsTidy,
}
use vanilla_bus.Persist.Sanitize.{sanitize_persist}
use vanilla_bus.Persist.Hints.{upsert_bus_hint, merge_remembered_names}
use vanilla_bus.Persist.Bounds.{IsHints}
use vanilla_bus.Persist.Sound.{IsSnapshot, sanitize_persist-IsSnapshot}
use vanilla_bus.Persist.Build.{of_snapshot}
use vanilla_bus.Persist.Restore.{sanitize_persist-of_snapshot}
use vanilla_bus.Persist.Hints.Upsert.{upsert_bus_hint-IsHints}
use vanilla_bus.Persist.Hints.Merge.{Offered, merge_remembered_names-Offered}

-- a file with a bus that has no name, and a window that the view does not offer
abbrev damaged : Value
damaged = object (
    field (codes "buses") (array (item (object (field (codes "name") (string []) end)) nil)) (
      field (codes "graph") (object (field (codes "windowSec") (number (integral (pos 31))) end))
        end))

sanitize_persist-IsSnapshot_example : IsSnapshot (sanitize_persist damaged)
sanitize_persist-IsSnapshot_example = sanitize_persist-IsSnapshot damaged

upsert_bus_hint-IsHints_example : IsHints (upsert_bus_hint two_buses (codes " can1 ") none)
upsert_bus_hint-IsHints_example =
    upsert_bus_hint-IsHints two_buses (codes " can1 ") none two_buses-IsHints

abbrev merged_names : List Text
merged_names = merge_remembered_names (codes "vcan0" ∷ []) two_buses (codes "can2")

merge_remembered_names-Offered_example :
    IsDistinct merged_names
    × All (Offered merged_names) (codes "vcan0" ∷ [])
    × All (Offered merged_names) (codes "vcan0" ∷ codes "can1" ∷ [])
    × Offered merged_names (codes "can2")
merge_remembered_names-Offered_example =
    merge_remembered_names-Offered (codes "vcan0" ∷ []) two_buses (codes "can2")

sanitize_persist-of_snapshot_example : sanitize_persist (of_snapshot saved) ≡ saved
sanitize_persist-of_snapshot_example =
    sanitize_persist-of_snapshot saved saved-IsSnapshot saved-IsTidy
