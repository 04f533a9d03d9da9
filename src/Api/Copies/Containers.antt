-- ===== src/Api/Copies/Containers.antt =====
-- Copies of slices and of what may be nil.
use config_srl.Prelude.{ℕ, ◌<◌, ◌≡◌, refl, ap, Option, none, some, List, [], ◌∷◌, ◌++◌, map, arith}
use config_srl.Prelude.Lists.{length, get_elem?, All, append-All}
use config_srl.Api.Copies.Shapes.{
  Shape, Copied, Copies, Copied-eq, Copied-both, Valid-grows, both, both_into,
}

module _ {Cell : Type 0} where
  module _ {A : Type 0} (s : Shape Cell A) where
    abbrev pub refs_of : List A → List ℕ
    refs_of [] = []
    refs_of (a ∷ xs) = s.refs a ++ refs_of xs

    pub frame_of :
        (xs : List A) (h h' : List Cell)
        → All (λ r. get_elem? h' r ≡ get_elem? h r) (refs_of xs)
        → map (λ a. s.view a h') xs ≡ map (λ a. s.view a h) xs
    frame_of [] h h' e = refl
    frame_of (a ∷ xs) h h' e =
        let (e0, e1) = append-All _ (s.refs a) (refs_of xs) e in
        λ i. s.frame a h h' e0 i ∷ frame_of xs h h' e1 i

    abbrev pub listed : Shape Cell (List A)
    listed = record {
      refs = refs_of;
      View = List s.View;
      view = λ xs h. map (λ a. s.view a h) xs;
      frame = frame_of;
    }

    pub Copied-cons :
        (a a' : A) (xs ys : List A) (h h' : List Cell)
        → Copied (both s listed) (a, xs) h (a', ys) h'
        → Copied listed (a ∷ xs) h (a' ∷ ys) h'
    Copied-cons a a' xs ys h h' c = record {
      same = ap (λ p. p.0 ∷ p.1) c.same;
      fresh = c.fresh;
      kept = c.kept;
      grows = c.grows;
    }

    abbrev pub option_refs : Option A → List ℕ
    option_refs none = []
    option_refs (some a) = s.refs a

    abbrev pub option_view : Option A → List Cell → Option s.View
    option_view none h = none
    option_view (some a) h = some (s.view a h)

    pub option_frame :
        (a : Option A) (h h' : List Cell)
        → All (λ r. get_elem? h' r ≡ get_elem? h r) (option_refs a)
        → option_view a h' ≡ option_view a h
    option_frame none h h' e = refl
    option_frame (some a) h h' e = ap some (s.frame a h h' e)

    abbrev pub optional : Shape Cell (Option A)
    optional = record {
      refs = option_refs;
      View = Option s.View;
      view = option_view;
      frame = option_frame;
    }

    pub Copied-some :
        (a b : A) (h h' : List Cell) → Copied s a h b h' → Copied optional (some a) h (some b) h'
    Copied-some a b h h' c = record {
      same = ap some c.same;
      fresh = c.fresh;
      kept = c.kept;
      grows = c.grows;
    }

    pub Copied-none : (h : List Cell) → Copied optional none h none h
    Copied-none h = record { same = refl; fresh = tt; kept = λ r l. refl; grows = omega arith }

  -- A slice whose elements are copied from the first to the last.
  module _ {A : Type 0} (s : Shape Cell A) (into : A → List Cell → A × List Cell)
      (all_into : List A → List Cell → List A × List Cell)
      (none_left : (h : List Cell) → ([], h) ≡ all_into [] h)
      (one_more : (a : A) (xs : List A) (h : List Cell)
        → let done = both_into into all_into (a, xs) h in
          (done.0.0 ∷ done.0.1, done.1) ≡ all_into (a ∷ xs) h)
      (one : Copies s into) where
    listed_at :
        (xs : List A) (h : List Cell)
        → All (λ r. r < length h) (refs_of s xs)
        → Copied (listed s) xs h (all_into xs h).0 (all_into xs h).1
    listed_at [] h v =
        Copied-eq (listed s) [] h (none_left h)
          (record { same = refl; fresh = tt; kept = λ r l. refl; grows = omega arith })
    listed_at (a ∷ xs) h v =
        let (a', h1) = into a h in
        let (ys, h2) = all_into xs h1 in
        let (v0, v1) = append-All _ (s.refs a) (refs_of s xs) v in
        let c = one.at a h v0 in
        let d = listed_at xs h1 (Valid-grows (listed s) xs h h1 c.grows v1) in
        Copied-eq (listed s) (a ∷ xs) h (one_more a xs h)
          (Copied-cons s a a' xs ys h h2 (Copied-both s (listed s) a a' xs ys h h1 h2 v1 c d))

    pub Copies-listed : Copies (listed s) all_into
    Copies-listed = record { at = listed_at }
