-- ===== src/Diff/Heap/Updates.antt =====
-- The repair of the updates of a notification in place, where each has a path object of its own.
use config_srl.Prelude.{
  ℕ, nat_eq, Bool, true, false, Option, none, some, List, [], ◌∷◌, map, ◌≡◌, ◌≢◌, refl, ap, ◌∙◌,
  ◌⊎◌, inl, inr, arith, if◌then◌else◌, Bool-cases,
}
use config_srl.Prelude.Lists.{Occurs}
use config_srl.Prelude.Outcome.{ok}
use config_srl.Gnmi.{PathElem, GnmiPath}
use config_srl.Diff.{empty_object}
use config_srl.Diff.Repair.{with_elems, trim, trim_update, validate_path-eq-trim}
use config_srl.Diff.Heap.{
  Heap, UpdateCell, set_at, validate_path_at, validate_update_at, validate_updates_at, read_update,
}

-- No element occurs twice.
abbrev pub Distinct : List ℕ → Type 0
Distinct [] = Unit
Distinct (x ∷ xs) = (¬ Occurs x xs) × Distinct xs

pub map_same :
    {A : Type 0} (f g : ℕ → A) (xs : List ℕ)
    → ((x : ℕ) → Occurs x xs → f x ≡ g x)
    → map f xs ≡ map g xs
map_same f g [] h = refl
map_same f g (x ∷ xs) h = cc (h x (inl refl), map_same f g xs (λ y o. h y (inr o)))

pub map_twice :
    {A B : Type 0} (f : A → B) (g : ℕ → A) (xs : List ℕ) → map f (map g xs) ≡ map (λ x. f (g x)) xs
map_twice f g [] = refl
map_twice f g (x ∷ xs) = ap (λ ys. f (g x) ∷ ys) (map_twice f g xs)

pub Occurs-map : (f : ℕ → ℕ) (x : ℕ) (xs : List ℕ) → Occurs x xs → Occurs (f x) (map f xs)
Occurs-map f x [] o = absurd o
Occurs-map f x (y ∷ xs) (inl e) = inl (ap f e)
Occurs-map f x (y ∷ xs) (inr o) = inr (Occurs-map f x xs o)

set_at-same : {A : Type 0} (r : ℕ) (a : A) (f : ℕ → A) → set_at r a f r ≡ a
set_at-same r a f = ground arith

set_at-other : {A : Type 0} (r x : ℕ) (a : A) (f : ℕ → A) → x ≢ r → set_at r a f x ≡ f x
set_at-other r x a f h = ground arith

with_elems-unchanged :
    (p : GnmiPath) (o : Option (List PathElem))
    → (with_elems p o).0 ≡ false
    → p ≡ (with_elems p o).1
with_elems-unchanged p none h = refl
with_elems-unchanged p (some es) h = cc

-- The heap after one path is repaired: its object is trimmed, everything else is as before.
pub record IsTrimmedAt (r : ℕ) (h h' : Heap) : Type 0 where
  pub trimmed : h'.paths r ≡ (trim (h.paths r)).1
  pub others : (x : ℕ) → x ≢ r → h'.paths x ≡ h.paths x
  pub updates_kept : h'.updates ≡ h.updates

pub validate_path_at-IsTrimmedAt :
    (r : ℕ) (h : Heap)
    → (h' : Heap) × (validate_path_at r h ≡ ok ((trim (h.paths r)).0, h')) × IsTrimmedAt r h h'
unfolding validate_path_at
validate_path_at-IsTrimmedAt r h = (
  if (trim (h.paths r)).0 then record h { paths = set_at r (trim (h.paths r)).1 h.paths } else h,
  rw (validate_path-eq-trim (h.paths r)),
  after (trim (h.paths r)).0 refl,
)
  where
    after :
        (b : Bool)
        → (trim (h.paths r)).0 ≡ b
        → IsTrimmedAt r h
            (if b then record h { paths = set_at r (trim (h.paths r)).1 h.paths } else h)
    after true e = record {
      trimmed = set_at-same r (trim (h.paths r)).1 h.paths;
      others = λ x d. set_at-other r x (trim (h.paths r)).1 h.paths d;
      updates_kept = refl;
    }
    after false e = record {
      trimmed = with_elems-unchanged (h.paths r) _ e;
      others = λ x d. refl;
      updates_kept = refl;
    }

same_or_not : (x y : ℕ) → (x ≡ y) ⊎ (x ≢ y)
same_or_not x y = elim (Bool-cases (nat_eq x y)) [
  | inl e ↦ inl (ground arith)
  | inr e ↦ inr (ground arith)
]

abbrev pub refs : Heap → List ℕ → List ℕ
refs h us = map (λ u. (h.updates u).path) us

-- The heap after the updates `us` are repaired.
pub record Repaired (us : List ℕ) (h h' : Heap) : Type 0 where
  pub repaired : map (read_update h') us ≡ map trim_update (map (read_update h) us)
  pub other_paths : (r : ℕ) → (¬ Occurs r (refs h us)) → h'.paths r ≡ h.paths r
  pub pointers : (x : ℕ) → (h'.updates x).path ≡ (h.updates x).path
  pub other_updates : (x : ℕ) → (¬ Occurs x us) → h'.updates x ≡ h.updates x

pub read_update-same :
    (h h' : Heap) (x : ℕ)
    → h'.updates x ≡ h.updates x
    → h'.paths (h.updates x).path ≡ h.paths (h.updates x).path
    → read_update h' x ≡ read_update h x
read_update-same h h' x e f = cc (e, f)

validate_update_at-Repaired :
    (u : ℕ) (h : Heap) → (h' : Heap) × (validate_update_at u h ≡ ok h') × Repaired (u ∷ []) h h'
unfolding validate_update_at
validate_update_at-Repaired u h =
    let cell = h.updates u in
    let t = trim (h.paths cell.path) in
    let (h1, e, s) = validate_path_at-IsTrimmedAt cell.path h in
    let new : UpdateCell = record cell { val = if t.0 then empty_object else cell.val } in
    let h2 : Heap = record h1 { updates = set_at u new h1.updates } in
    let written : h2.updates u ≡ new = set_at-same u new h1.updates in
    let kept =
      λ (x : ℕ) (d : x ≢ u). set_at-other u x new h1.updates d ∙ ap (λ f. f x) s.updates_kept in
    (
      h2,
      rw e,
      record {
        repaired = λ i.
            record {
              path = (ap (λ (c : UpdateCell). h1.paths c.path) written ∙ s.trimmed) i;
              val = (written i).val;
            }
            ∷ [];
        other_paths = λ r o. s.others r (λ same. o (inl same));
        pointers = λ x. elim (same_or_not x u) [
          | inl same ↦ rw same (ap (λ c. c.path) written)
          | inr d ↦ ap (λ c. c.path) (kept x d)
        ];
        other_updates = λ x o. kept x (λ same. o (inl same));
      },
    )

same_refs : (u : ℕ) (us : List ℕ) {h h1 : Heap} → Repaired (u ∷ []) h h1 → refs h1 us ≡ refs h us
same_refs u us {h} {h1} s =
    map_same (λ x. (h1.updates x).path) (λ x. (h.updates x).path) us (λ x o. s.pointers x)

-- The first update, then the others: neither touches the objects of the other.
module _ (u : ℕ) (us : List ℕ) (h h1 h2 : Heap) (s : Repaired (u ∷ []) h h1) (t : Repaired us h1 h2)
    (d : Distinct (refs h (u ∷ us))) where
  apart : (x : ℕ) → Occurs x us → (h.updates x).path ≢ (h.updates u).path
  apart x o same = d.0 (rw same at (Occurs-map (λ y. (h.updates y).path) x us o))

  not_first : (x : ℕ) → Occurs x us → x ≢ u
  not_first x o same = apart x o (ap (λ y. (h.updates y).path) same)

  first_stays : read_update h2 u ≡ read_update h1 u
  first_stays =
      read_update-same h1 h2 u (t.other_updates u (λ o. not_first u o refl))
        (t.other_paths _ (λ o. d.0 (rw (s.pointers u, same_refs u us s) at o)))

  rest_waits : map (read_update h1) us ≡ map (read_update h) us
  rest_waits = map_same (read_update h1) (read_update h) us (λ x o.
      read_update-same h h1 x
        (s.other_updates x (λ q. elim q [ inl e ↦ not_first x o e | inr z ↦ z ]))
        (s.other_paths _ (λ q. elim q [ inl e ↦ apart x o e | inr z ↦ z ])))

  Repaired-cons : Repaired (u ∷ us) h h2
  Repaired-cons =
      let first : read_update h1 u ≡ trim_update (read_update h u) = cc s.repaired in
      record {
        repaired = cc (first_stays ∙ first, t.repaired ∙ ap (map trim_update) rest_waits);
        other_paths = λ r o.
            t.other_paths r (λ q. o (inr (rw (same_refs u us s) at q)))
            ∙ s.other_paths r (λ q. elim q [ inl e ↦ o (inl e) | inr z ↦ z ]);
        pointers = λ x. t.pointers x ∙ s.pointers x;
        other_updates = λ x o.
            t.other_updates x (λ q. o (inr q))
            ∙ s.other_updates x (λ q. elim q [ inl e ↦ o (inl e) | inr z ↦ z ]);
      }

pub validate_updates_at-Repaired :
    (us : List ℕ) (h : Heap)
    → Distinct (refs h us)
    → (h' : Heap) × (validate_updates_at us h ≡ ok h') × Repaired us h h'
unfolding validate_updates_at
validate_updates_at-Repaired [] h d = (
  h,
  refl,
  record {
    repaired = refl;
    other_paths = λ r o. refl;
    pointers = λ x. refl;
    other_updates = λ x o. refl;
  },
)
validate_updates_at-Repaired (u ∷ us) h d =
    let (h1, e, s) = validate_update_at-Repaired u h in
    let (h2, f, t) = validate_updates_at-Repaired us h1 (rw (same_refs u us s) d.1) in
    (h2, rw (e, f), Repaired-cons u us h h1 h2 s t d)
