-- ===== src/Api/Copies/Shapes.antt =====
-- What a copy on a heap has to be, with one rule for each way to put values together.
use config_srl.Prelude.{ℕ, ◌≤◌, ◌<◌, ◌≡◌, refl, sym, ◌∙◌, List, [], ◌++◌, arith}
use config_srl.Prelude.Lists.{length, get_elem?, All, All-map, All-append, append-All}
use mathlib.Core.Path.{subst}

-- The addresses of a value, and what it shows, which depends on the cells under them alone.
pub record Shape (Cell A : Type 0) : Type 1 where
  pub refs : A → List ℕ
  pub View : Type 0
  pub view : A → List Cell → View
  pub frame :
      (a : A) (h h' : List Cell)
      → All (λ r. get_elem? h' r ≡ get_elem? h r) (refs a)
      → view a h' ≡ view a h

module _ {Cell : Type 0} where
  -- All addresses are those of cells.
  abbrev pub Valid : {A : Type 0} → Shape Cell A → A → List Cell → Type 0
  Valid s a h = All (λ r. r < length h) (s.refs a)

  -- A copy `b` in `h'` of the value `a` in `h`: it shows the same, it leads to new cells only, and
  -- no old cell has changed.
  pub record Copied {A : Type 0} (s : Shape Cell A) (a : A) (h : List Cell) (b : A) (h' : List Cell)
      : Type 0 where
    pub same : s.view b h' ≡ s.view a h
    pub fresh : All (λ r. (length h ≤ r) × (r < length h')) (s.refs b)
    pub kept : (r : ℕ) → r < length h → get_elem? h' r ≡ get_elem? h r
    pub grows : length h ≤ length h'

  -- A value without addresses is its own copy.
  abbrev pub constant : (A : Type 0) → Shape Cell A
  constant A = record { refs = λ a. []; View = A; view = λ a h. a; frame = λ a h h' e. refl }

  pub Copied-constant : {A : Type 0} (a : A) (h : List Cell) → Copied (constant A) a h a h
  Copied-constant a h = record { same = refl; fresh = tt; kept = λ r l. refl; grows = omega arith }

  -- A struct, by its fields.
  abbrev pub by : {A B : Type 0} → (B → A) → Shape Cell A → Shape Cell B
  by f s = record {
    refs = λ b. s.refs (f b);
    View = s.View;
    view = λ b h. s.view (f b) h;
    frame = λ b h h' e. s.frame (f b) h h' e;
  }

  pub Copied-by :
      {A B : Type 0} (f : B → A) (s : Shape Cell A) (a b : B) (h h' : List Cell)
      → Copied s (f a) h (f b) h'
      → Copied (by f s) a h b h'
  Copied-by f s a b h h' c = record {
    same = c.same;
    fresh = c.fresh;
    kept = c.kept;
    grows = c.grows;
  }

  module _ {A B : Type 0} (s : Shape Cell A) (t : Shape Cell B) where
    abbrev pub both : Shape Cell (A × B)
    both = record {
      refs = λ p. s.refs p.0 ++ t.refs p.1;
      View = s.View × t.View;
      view = λ p h. (s.view p.0 h, t.view p.1 h);
      frame = λ p h h' e.
          let (e0, e1) = append-All _ (s.refs p.0) (t.refs p.1) e in
          λ i. (s.frame p.0 h h' e0 i, t.frame p.1 h h' e1 i);
    }

    -- One part is copied after the other.
    pub Copied-both :
        (a a' : A) (b b' : B) (h h1 h2 : List Cell)
        → Valid t b h
        → Copied s a h a' h1
        → Copied t b h1 b' h2
        → Copied both (a, b) h (a', b') h2
    Copied-both a a' b b' h h1 h2 v c d = record {
      same = λ i. (first_same i, second_same i);
      fresh =
          All-append _ (s.refs a') (t.refs b')
            (All-map _ _ (λ r (p, q). (p, omega (arith, q, d.grows))) (s.refs a') c.fresh)
            (All-map _ _ (λ r (p, q). (omega (arith, p, c.grows), q)) (t.refs b') d.fresh);
      kept = λ r l. d.kept r (omega (arith, l, c.grows)) ∙ c.kept r l;
      grows = omega (arith, c.grows, d.grows);
    }
      where
        first_same : s.view a' h2 ≡ s.view a h
        first_same =
            s.frame a' h1 h2 (All-map _ _ (λ r (p, q). d.kept r q) (s.refs a') c.fresh) ∙ c.same

        second_same : t.view b' h2 ≡ t.view b h
        second_same = d.same ∙ t.frame b h h1 (All-map _ _ (λ r l. c.kept r l) (t.refs b) v)

  -- A copy function gives a copy of every value that leads to cells.
  pub record Copies {A : Type 0} (s : Shape Cell A) (into : A → List Cell → A × List Cell)
      : Type 0 where
    pub at : (a : A) (h : List Cell) → Valid s a h → Copied s a h (into a h).0 (into a h).1

  pub Valid-grows :
      {A : Type 0} (s : Shape Cell A) (a : A) (h h' : List Cell)
      → length h ≤ length h'
      → Valid s a h
      → Valid s a h'
  Valid-grows s a h h' l v = All-map _ _ (λ r k. omega (arith, k, l)) (s.refs a) v

  abbrev pub both_into :
      {A B : Type 0}
      → (A → List Cell → A × List Cell)
      → (B → List Cell → B × List Cell)
      → A × B
      → List Cell
      → (A × B) × List Cell
  both_into f g p h = let (a, h1) = f p.0 h in let (b, h2) = g p.1 h1 in ((a, b), h2)

  pub Copies-both :
      {A B : Type 0} (s : Shape Cell A) (t : Shape Cell B) (f : A → List Cell → A × List Cell)
      (g : B → List Cell → B × List Cell)
      → Copies s f
      → Copies t g
      → Copies (both s t) (both_into f g)
  Copies-both s t f g cf cg = record {
    at = λ p h v.
        let (v0, v1) = append-All _ (s.refs p.0) (t.refs p.1) v in
        let c = cf.at p.0 h v0 in
        Copied-both s t p.0 (f p.0 h).0 p.1 (g p.1 (f p.0 h).1).0 h (f p.0 h).1
          (g p.1 (f p.0 h).1).1 v1 c
          (cg.at p.1 (f p.0 h).1 (Valid-grows t p.1 h (f p.0 h).1 c.grows v1));
  }

  pub Copies-constant : (A : Type 0) → Copies (constant A) (λ a h. (a, h))
  Copies-constant A = record { at = λ a h v. Copied-constant a h }

  pub Copied-eq :
      {A : Type 0} (s : Shape Cell A) (a : A) (h : List Cell) {r r' : A × List Cell}
      → r ≡ r'
      → Copied s a h r.0 r.1
      → Copied s a h r'.0 r'.1
  Copied-eq s a h e c = subst (λ x. Copied s a h x.0 x.1) e c

  -- A struct is copied by copying its fields.
  pub Copies-by :
      {A B : Type 0} (f : B → A) (s : Shape Cell A) (into : A → List Cell → A × List Cell)
      (struct_into : B → List Cell → B × List Cell)
      → ((b : B) (h : List Cell) → (f (struct_into b h).0, (struct_into b h).1) ≡ into (f b) h)
      → Copies s into
      → Copies (by f s) struct_into
  Copies-by f s into struct_into e c = record {
    at = λ b h v.
        let copied = (struct_into b h).0 in
        let after = (struct_into b h).1 in
        Copied-by f s b copied h after (Copied-eq s (f b) h (sym (e b h)) (c.at (f b) h v));
  }
