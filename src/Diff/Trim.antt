-- ===== src/Diff/Trim.antt =====
-- Which paths `validate_path` shortens, against a description that names no index.
use config_srl.Prelude.{
  ◌+◌, ◌-◌, some, String, true, false, ◌&&◌, List, [], ◌∷◌, ◌++◌, ◌≡◌, ◌⊎◌, ◌∙◌, ap, refl, sym,
  Bool-cases, inl, inr, not, is_empty, arith, if◌then◌else◌, leb,
}
use mathlib.Core.List.{append_assoc}
use config_srl.Prelude.Lists.{
  length, length-append, get_elem?, take, get_elem?-append, take-append, split_last_two,
}
use config_srl.Prelude.Dict.{Dict, contains, lookup}
use config_srl.Prelude.Outcome.{ok}
use config_srl.Gnmi.{PathElem, GnmiPath}
use config_srl.Diff.{validate_path}

-- A path of the last two elements `parent` and `leaf`.
abbrev pub ends_in : String → String → List PathElem → PathElem → PathElem → GnmiPath
ends_in target origin pre parent leaf = record {
  target = target;
  origin = origin;
  elem = pre ++ (parent ∷ leaf ∷ []);
}

abbrev pub cut : String → String → List PathElem → PathElem → GnmiPath
cut target origin pre parent = record {
  target = target;
  origin = origin;
  elem = pre ++ (parent ∷ []);
}

module _ (pre : List PathElem) (a b : PathElem) where
  abbrev ended : List PathElem
  ended = pre ++ (a ∷ b ∷ [])

  length-ended : length ended ≡ length pre + 2
  length-ended = omega (arith, length-append pre (a ∷ b ∷ []))

  ended-snoc : (pre ++ (a ∷ [])) ++ (b ∷ []) ≡ ended
  ended-snoc = append_assoc pre (a ∷ []) (b ∷ [])

  before_last : length ended - 1 ≡ length (pre ++ (a ∷ []))
  before_last = omega (arith, length-ended, length-append pre (a ∷ []))

  get_second_last : get_elem? ended (length ended - 2) ≡ some a
  get_second_last =
      let e : length ended - 2 ≡ length pre = omega (arith, length-ended) in
      rw e (get_elem?-append pre (b ∷ []) a)

  get_last : get_elem? ended (length ended - 1) ≡ some b
  get_last = rw (before_last, ← ended-snoc) (get_elem?-append (pre ++ (a ∷ [])) [] b)

  take_before_last : take (length ended - 1) ended ≡ pre ++ (a ∷ [])
  take_before_last = rw (before_last, ← ended-snoc) (take-append (pre ++ (a ∷ [])) (b ∷ []))

non_empty_contains :
    (k : String) (m : Dict String) → (not (is_empty m) && contains k m) ≡ contains k m
unfolding lookup
non_empty_contains k [] = refl
non_empty_contains k (_ ∷ m) = refl

pub validate_path-ends_in :
    (t o : String) (pre : List PathElem) (parent leaf : PathElem)
    → validate_path (ends_in t o pre parent leaf)
      ≡ ok (
          if contains leaf.name parent.key
          then (true, cut t o pre parent)
          else (false, ends_in t o pre parent leaf))
unfolding validate_path
validate_path-ends_in t o pre parent leaf =
    let long : leb (length (ended pre parent leaf)) 1 ≡ false =
      ground (arith, length-ended pre parent leaf) in
    rw
      (
        long,
        get_second_last pre parent leaf,
        get_last pre parent leaf,
        take_before_last pre parent leaf,
      )
      (rw non_empty_contains)

-- `q` is `p` without a last element that names a key of the element before it.
abbrev pub Trims : GnmiPath → GnmiPath → Type 0
Trims p q =
    (pre : List PathElem) × (parent : PathElem) × (leaf : PathElem) × (p
      ≡ ends_in p.target p.origin pre parent leaf)
    × (q ≡ cut p.target p.origin pre parent)
    × (contains leaf.name parent.key ≡ true)

Trims-validate_path : (p q : GnmiPath) → Trims p q → validate_path p ≡ ok (true, q)
Trims-validate_path p q (pre, parent, leaf, e, f, h) =
    let shape = validate_path-ends_in p.target p.origin pre parent leaf in
    rw h at (ap validate_path e ∙ shape) ∙ ap (λ r. ok (true, r)) (sym f)

not-Trims : (p : GnmiPath) → validate_path p ≡ ok (false, p) → (q : GnmiPath) → ¬ Trims p q
not-Trims p same q t = cc (Trims-validate_path p q t)

pub short_path : (p : GnmiPath) → leb (length p.elem) 1 ≡ true → validate_path p ≡ ok (false, p)
unfolding validate_path
short_path p h = rw h

pub as_ends_in :
    (p : GnmiPath)
    → leb (length p.elem) 1 ≡ false
    → (pre : List PathElem) × (parent : PathElem) × (leaf : PathElem) × (p
        ≡ ends_in p.target p.origin pre parent leaf)
as_ends_in p h =
    let (pre, parent, leaf, e) = split_last_two p.elem (ground arith) in
    (pre, parent, leaf, ap (λ es. record p { elem = es }) e)

-- The path comes back shortened exactly if it ends in a key leaf, and as it was if not. No index
-- that the code computes is out of range.
pub validate_path_correct :
    (p : GnmiPath)
    → ((q : GnmiPath) × (validate_path p ≡ ok (true, q)) × Trims p q)
      ⊎ ((validate_path p ≡ ok (false, p)) × ((q : GnmiPath) → ¬ Trims p q))
validate_path_correct p = elim (Bool-cases (leb (length p.elem) 1)) [
  | inl short ↦ inr (short_path p short, not-Trims p (short_path p short))
  | inr long ↦ long_path (as_ends_in p long)
]
  where
    long_path :
        ((pre : List PathElem) × (parent : PathElem) × (leaf : PathElem) × (p
            ≡ ends_in p.target p.origin pre parent leaf))
        → ((q : GnmiPath) × (validate_path p ≡ ok (true, q)) × Trims p q)
          ⊎ ((validate_path p ≡ ok (false, p)) × ((q : GnmiPath) → ¬ Trims p q))
    long_path (pre, parent, leaf, e) =
        let q = cut p.target p.origin pre parent in
        let shape = ap validate_path e ∙ validate_path-ends_in p.target p.origin pre parent leaf in
        elim (Bool-cases (contains leaf.name parent.key)) [
          | inl key ↦
              let t : Trims p q = (pre, parent, leaf, e, refl, key) in
              inl (q, Trims-validate_path p q t, t)
          | inr other ↦
              let same : validate_path p ≡ ok (false, p) =
                rw other at shape ∙ ap (λ r. ok (false, r)) (sym e) in
              inr (same, not-Trims p same)
        ]
