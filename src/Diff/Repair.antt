-- ===== src/Diff/Repair.antt =====
-- What `validate_notification` makes of a notification, against definitions without indices.
use mathlib.Core.Option
use mathlib.Core.Path.{subst}
use config_srl.Prelude.{
  Bool, true, false, Option, none, some, List, [], ◌∷◌, ◌++◌, map, ◌≡◌, refl, sym, String, arith,
  inl, inr, if◌then◌else◌, Bool-cases, leb,
}
use config_srl.Prelude.Lists.{length}
use config_srl.Prelude.Dict.{contains}
use config_srl.Prelude.Outcome.{ok}
use config_srl.Gnmi.{PathElem, GnmiPath, Update, Notification}
use config_srl.Diff.{
  validate_path, empty_object, validate_update, validate_updates, validate_deletes,
  validate_notification,
}
use config_srl.Diff.Trim.{short_path, ends_in, as_ends_in, validate_path-ends_in}

-- The elements without a key leaf at the end; `none` if there is none.
abbrev pub trim_elems : List PathElem → Option (List PathElem)
trim_elems [] = none
trim_elems (a ∷ []) = none
trim_elems (a ∷ b ∷ []) = if contains b.name a.key then some (a ∷ []) else none
trim_elems (a ∷ b ∷ c ∷ es) = Option.map (λ r. a ∷ r) (trim_elems (b ∷ c ∷ es))

abbrev pub with_elems : GnmiPath → Option (List PathElem) → Bool × GnmiPath
with_elems p none = (false, p)
with_elems p (some es) = (true, record p { elem = es })

abbrev pub trim : GnmiPath → Bool × GnmiPath
trim p = with_elems p (trim_elems p.elem)

abbrev pub trim_update : Update → Update
trim_update u = record {
  path = (trim u.path).1;
  val = if (trim u.path).0 then empty_object else u.val;
}

trim_elems-append :
    (pre : List PathElem) (a b : PathElem)
    → trim_elems (pre ++ (a ∷ b ∷ []))
      ≡ (if contains b.name a.key then some (pre ++ (a ∷ [])) else none)
trim_elems-append [] a b = refl
trim_elems-append (x ∷ []) a b = ground arith
trim_elems-append (x ∷ y ∷ []) a b = rw (trim_elems-append (y ∷ []) a b) (ground arith)
trim_elems-append (x ∷ y ∷ z ∷ pre) a b = rw (trim_elems-append (y ∷ z ∷ pre) a b) (ground arith)

trim_elems-short : (es : List PathElem) → leb (length es) 1 ≡ true → trim_elems es ≡ none
trim_elems-short [] h = refl
trim_elems-short (a ∷ []) h = refl
trim_elems-short (a ∷ b ∷ es) h = absurd (ground arith)

trim-ends_in :
    (t o : String) (pre : List PathElem) (a b : PathElem)
    → validate_path (ends_in t o pre a b) ≡ ok (trim (ends_in t o pre a b))
trim-ends_in t o pre a b = elim (Bool-cases (contains b.name a.key)) [
  | inl key ↦ rw (validate_path-ends_in t o pre a b, trim_elems-append pre a b, with_elems, key)
  | inr other ↦ rw (validate_path-ends_in t o pre a b, trim_elems-append pre a b, with_elems, other)
]

pub validate_path-eq-trim : (p : GnmiPath) → validate_path p ≡ ok (trim p)
validate_path-eq-trim p = elim (Bool-cases (leb (length p.elem) 1)) [
  | inl short ↦ rw (short_path p short, trim_elems-short p.elem short, with_elems)
  | inr long ↦
      let (pre, a, b, e) = as_ends_in p long in
      subst (λ r. validate_path r ≡ ok (trim r)) (sym e) (trim-ends_in _ _ pre a b)
]

validate_update-eq-trim_update : (u : Update) → validate_update u ≡ ok (trim_update u)
unfolding validate_update
validate_update-eq-trim_update u = rw (validate_path-eq-trim u.path)

validate_updates-eq-map : (us : List Update) → validate_updates us ≡ ok (map trim_update us)
unfolding validate_updates
validate_updates-eq-map [] = refl
validate_updates-eq-map (u ∷ us) = rw (validate_update-eq-trim_update u, validate_updates-eq-map us)

validate_deletes-eq-map : (ps : List GnmiPath) → validate_deletes ps ≡ ok (map (λ p. (trim p).1) ps)
unfolding validate_deletes
validate_deletes-eq-map [] = refl
validate_deletes-eq-map (p ∷ ps) = rw (validate_path-eq-trim p, validate_deletes-eq-map ps)

-- The repair never fails: it keeps every delete and every update in its place, with its path
-- trimmed, and an update whose path was trimmed carries the empty object.
pub validate_notification_lem :
    (n : Notification)
    → validate_notification n ≡ ok (map (λ p. (trim p).1) n.delete, map trim_update n.update)
unfolding validate_notification
validate_notification_lem n =
    rw (validate_updates-eq-map n.update, validate_deletes-eq-map n.delete)
