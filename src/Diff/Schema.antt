-- ===== src/Diff/Schema.antt =====
-- Paths of a YANG schema: keys are leaves, so no element that has a successor names a key of the
-- element before it. On such paths one repair is enough.
use config_srl.Prelude.{String, false, List, [], ◌∷◌, ◌++◌, ◌≡◌, refl, ◌∙◌, Bool, inl, inr}
use config_srl.Prelude.Lists.{split_last}
use config_srl.Prelude.Dict.{contains}
use config_srl.Prelude.Outcome.{ok}
use config_srl.Gnmi.{PathElem, GnmiPath}
use config_srl.Diff.{validate_path}
use config_srl.Diff.Trim.{cut, short_path, validate_path-ends_in, validate_path_correct}
use mathlib.Core.List.{append_assoc}

abbrev pub KeysAreLeaves : List PathElem → Type 0
KeysAreLeaves (a ∷ b ∷ c ∷ es) = (contains b.name a.key ≡ false) × KeysAreLeaves (b ∷ c ∷ es)
KeysAreLeaves _ = Unit

KeysAreLeaves-inner :
    (pre : List PathElem) (a b c : PathElem)
    → KeysAreLeaves (pre ++ (a ∷ b ∷ c ∷ []))
    → contains b.name a.key ≡ false
KeysAreLeaves-inner [] a b c h = h.0
KeysAreLeaves-inner (x ∷ []) a b c h = KeysAreLeaves-inner [] a b c h.1
KeysAreLeaves-inner (x ∷ y ∷ []) a b c h = KeysAreLeaves-inner (y ∷ []) a b c h.1
KeysAreLeaves-inner (x ∷ y ∷ z ∷ pre) a b c h = KeysAreLeaves-inner (y ∷ z ∷ pre) a b c h.1

-- A path that was shortened is not shortened again.
trimmed_once :
    (t o : String) (pre : List PathElem) (parent leaf : PathElem)
    → KeysAreLeaves (pre ++ (parent ∷ leaf ∷ []))
    → validate_path (cut t o pre parent) ≡ ok (false, cut t o pre parent)
trimmed_once t o pre parent leaf h = elim (split_last pre) [
  | inl e ↦ rw e (short_path (cut t o [] parent) refl)
  | inr (qre, g, e) ↦
      let inner : contains parent.name g.key ≡ false =
        KeysAreLeaves-inner qre g parent leaf (rw (e, append_assoc) at h) in
      rw (e, append_assoc) (validate_path-ends_in t o qre g parent ∙ rw inner)
]

-- On a path whose keys are leaves, repairing the result changes nothing more.
validate_path_idem :
    (p q : GnmiPath) (changed : Bool)
    → KeysAreLeaves p.elem
    → validate_path p ≡ ok (changed, q)
    → validate_path q ≡ ok (false, q)
validate_path_idem p q changed leaves e = elim (validate_path_correct p) [
  | inl (r, f, (pre, parent, leaf, shape, short, _)) ↦
      let same : q ≡ cut p.target p.origin pre parent = cc in
      rw same (trimmed_once _ _ pre parent leaf (rw shape at leaves))
  | inr (f, _) ↦ let same : q ≡ p = cc in rw same f
]
