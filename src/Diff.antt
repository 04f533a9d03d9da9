-- ===== src/Diff.antt =====
-- internal/controllers/srl/utils.go: `validatePath` and `validateNotification`, which repair the
-- notification that `ygot.Diff` returns. Logging by `fmt.Printf` is left out.
pub mod Trim
pub mod Schema
pub mod Repair
pub mod Heap
use config_srl.Prelude.{
  ℕ, ◌-◌, String, Bool, true, false, ◌&&◌, not, List, [], ◌∷◌, if◌then◌else◌, leb, is_empty,
}
use config_srl.Prelude.Lists.{length, get_elem?, take}
use config_srl.Prelude.Dict.{contains}
use config_srl.Prelude.Outcome.{Outcome, ok, deref, ◌>>=◌}
use config_srl.Gnmi.{PathElem, GnmiPath, TypedValue, json_val, Update, Notification}

-- Drops a last element that names a key of the element before it. An index is `none` out of range.
unfoldable pub validate_path : GnmiPath → Outcome (Bool × GnmiPath)
validate_path p =
    let n = length p.elem in
    let trimmed = record p { elem = take (n - 1) p.elem } in
    if leb n 1 then ok (false, p) else (do
      parent ← deref (get_elem? p.elem (n - 2))
      leaf ← deref (get_elem? p.elem (n - 1))
      ok (
          if not (is_empty parent.key) && contains leaf.name parent.key
          then (true, trimmed)
          else (false, p)))

-- The value that replaces a key leaf: the list entry as an empty object.
abbrev pub empty_object : TypedValue
empty_object = json_val "{}"

validate_update : Update → Outcome Update
validate_update u = do
  (changed, p) ← validate_path u.path
  ok (record { path = p; val = if changed then empty_object else u.val })

validate_updates : List Update → Outcome (List Update)
validate_updates [] = ok []
validate_updates (u ∷ us) = do u' ← validate_update u; us' ← validate_updates us; ok (u' ∷ us')

validate_deletes : List GnmiPath → Outcome (List GnmiPath)
validate_deletes [] = ok []
validate_deletes (p ∷ ps) = do (_, p') ← validate_path p; ps' ← validate_deletes ps; ok (p' ∷ ps')

-- The deletes and the updates of a notification, each path repaired.
unfoldable pub validate_notification : Notification → Outcome (List GnmiPath × List Update)
unfolding validate_path validate_update validate_updates validate_deletes
validate_notification n = do
  updates ← validate_updates n.update
  deletes ← validate_deletes n.delete
  ok (deletes, updates)
