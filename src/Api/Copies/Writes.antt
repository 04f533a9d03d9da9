-- ===== src/Api/Copies/Writes.antt =====
-- Writes to cells, after a copy.
use config_srl.Prelude.{ℕ, zero, suc, ◌≤◌, ◌<◌, ◌≡◌, ◌≢◌, refl, ap, ◌∙◌, List, [], ◌∷◌, arith}
use config_srl.Prelude.Lists.{length, get_elem?, All, All-map}
use config_srl.Api.Copies.Shapes.{Shape, Valid, Copied}

module _ {Cell : Type 0} where
  abbrev pub write : ℕ → Cell → List Cell → List Cell
  write r c [] = []
  write zero c (x ∷ xs) = c ∷ xs
  write (suc r) c (x ∷ xs) = x ∷ write r c xs

  -- In order, each to an address.
  abbrev pub write_all : List (ℕ × Cell) → List Cell → List Cell
  write_all [] h = h
  write_all (w ∷ ws) h = write_all ws (write w.0 w.1 h)

  get_elem?-write :
      (r r' : ℕ) (c : Cell) (h : List Cell) → r ≢ r' → get_elem? (write r c h) r' ≡ get_elem? h r'
  get_elem?-write r r' c [] d = refl
  get_elem?-write zero zero c (x ∷ xs) d = elim (d refl) [ ]
  get_elem?-write zero (suc r') c (x ∷ xs) d = refl
  get_elem?-write (suc r) zero c (x ∷ xs) d = refl
  get_elem?-write (suc r) (suc r') c (x ∷ xs) d = get_elem?-write r r' c xs (λ e. d (ap suc e))

  -- Where no write goes, the cells stay.
  get_elem?-write_all :
      (ws : List (ℕ × Cell)) (r : ℕ) (h : List Cell)
      → All (λ w. w.0 ≢ r) ws
      → get_elem? (write_all ws h) r ≡ get_elem? h r
  get_elem?-write_all [] r h d = refl
  get_elem?-write_all (w ∷ ws) r h (d, ds) =
      get_elem?-write_all ws r (write w.0 w.1 h) ds ∙ get_elem?-write w.0 r w.1 h d

  module _ {A : Type 0} (s : Shape Cell A) (a : A) (h : List Cell) (b : A) (h' : List Cell) where
    pub write_new-view :
        Valid s a h
        → Copied s a h b h'
        → (ws : List (ℕ × Cell)) → All (λ w. length h ≤ w.0) ws
        → s.view a (write_all ws h') ≡ s.view a h
    write_new-view v c ws new = s.frame a h (write_all ws h') (
        All-map _ _
          (λ r l.
            get_elem?-write_all ws r h' (All-map _ _ (λ w k e. omega (arith, l, k, e)) ws new)
            ∙ c.kept r l)
          (s.refs a) v)

    pub write_old-view :
        Copied s a h b h'
        → (ws : List (ℕ × Cell)) → All (λ w. w.0 < length h) ws
        → s.view b (write_all ws h') ≡ s.view a h
    write_old-view c ws old =
        s.frame b h' (write_all ws h') (
          All-map _ _
            (λ r p.
              get_elem?-write_all ws r h' (All-map _ _ (λ w k e. omega (arith, p.0, k, e)) ws old))
            (s.refs b) c.fresh)
        ∙ c.same
