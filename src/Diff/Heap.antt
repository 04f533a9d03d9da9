-- ===== src/Diff/Heap.antt =====
-- `validatePath` and `validateNotification` of internal/controllers/srl/utils.go on the objects that
-- they write to: a notification holds pointers to updates and to paths, an update holds a pointer to
-- its path, and both functions change these objects in place and return the same pointers.
pub mod Updates
pub mod Refinement
use config_srl.Prelude.{ℕ, nat_eq, Bool, List, [], ◌∷◌, map, if◌then◌else◌}
use config_srl.Prelude.Outcome.{Outcome, ok, ◌>>=◌}
use config_srl.Gnmi.{GnmiPath, TypedValue, Update, Notification}
use config_srl.Diff.{validate_path, empty_object}

-- An update object; `path` is the number of a path object.
pub record UpdateCell : Type 0 where
  pub path : ℕ
  pub val : TypedValue

-- The path objects and the update objects, each by its number.
pub record Heap : Type 0 where
  pub paths : ℕ → GnmiPath
  pub updates : ℕ → UpdateCell

-- A notification object: pointers to updates, and to the paths to delete.
pub record NotificationCell : Type 0 where
  pub update : List ℕ
  pub delete : List ℕ

-- `*r = a`
abbrev pub set_at : {A : Type 0} → ℕ → A → (ℕ → A) → ℕ → A
set_at r a f x = if nat_eq x r then a else f x

-- The object is written only if the path is cut.
pub validate_path_at : ℕ → Heap → Outcome (Bool × Heap)
validate_path_at r h = do
  (changed, q) ← validate_path (h.paths r)
  ok (changed, if changed then record h { paths = set_at r q h.paths } else h)

-- One turn of the first loop.
pub validate_update_at : ℕ → Heap → Outcome Heap
unfolding validate_path_at
validate_update_at u h = do
  let cell = h.updates u
  (changed, h') ← validate_path_at cell.path h
  let repaired = record cell { val = if changed then empty_object else cell.val }
  ok (record h' { updates = set_at u repaired h'.updates })

pub validate_updates_at : List ℕ → Heap → Outcome Heap
unfolding validate_update_at
validate_updates_at [] h = ok h
validate_updates_at (u ∷ us) h = validate_update_at u h >>= λ h'. validate_updates_at us h'

pub validate_deletes_at : List ℕ → Heap → Outcome Heap
unfolding validate_path_at
validate_deletes_at [] h = ok h
validate_deletes_at (r ∷ rs) h = validate_path_at r h >>= λ (_, h'). validate_deletes_at rs h'

-- The deletes and the updates that are returned are the notification's own pointers.
unfoldable pub validate_notification_at :
    NotificationCell → Heap → Outcome ((List ℕ × List ℕ) × Heap)
unfolding validate_updates_at validate_deletes_at
validate_notification_at n h = do
  h' ← validate_updates_at n.update h
  h'' ← validate_deletes_at n.delete h'
  ok ((n.delete, n.update), h'')

-- What is seen through the pointers.
abbrev pub read_update : Heap → ℕ → Update
read_update h u = record { path = h.paths (h.updates u).path; val = (h.updates u).val }

abbrev pub read_notification : Heap → NotificationCell → Notification
read_notification h n = record {
  update = map (read_update h) n.update;
  delete = map h.paths n.delete;
}
