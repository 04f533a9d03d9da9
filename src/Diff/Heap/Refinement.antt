-- ===== src/Diff/Heap/Refinement.antt =====
-- On a notification whose paths are objects of their own, the writes in place do what the functions on
-- values do.
use config_srl.Prelude.{ℕ, List, [], ◌∷◌, map, ◌≡◌, refl, sym, ap, ◌∙◌, inl, inr}
use config_srl.Prelude.Lists.{Occurs}
use config_srl.Prelude.Outcome.{ok}
use config_srl.Diff.{validate_notification}
use config_srl.Diff.Repair.{trim, trim_update, validate_notification_lem}
use config_srl.Diff.Heap.{
  Heap, NotificationCell, validate_deletes_at, validate_notification_at, read_update,
  read_notification,
}
use config_srl.Diff.Heap.Updates.{
  Distinct, Occurs-map, map_same, map_twice, validate_path_at-IsTrimmedAt, read_update-same,
  validate_updates_at-Repaired,
}

-- The heap after the paths `rs` are repaired.
record Trimmed (rs : List ℕ) (h h' : Heap) : Type 0 where
  trimmed : map h'.paths rs ≡ map (λ r. (trim (h.paths r)).1) rs
  other_paths : (r : ℕ) → (¬ Occurs r rs) → h'.paths r ≡ h.paths r
  updates_kept : h'.updates ≡ h.updates

validate_deletes_at-Trimmed :
    (rs : List ℕ) (h : Heap)
    → Distinct rs
    → (h' : Heap) × (validate_deletes_at rs h ≡ ok h') × Trimmed rs h h'
unfolding validate_deletes_at
validate_deletes_at-Trimmed [] h d =
    (h, refl, record { trimmed = refl; other_paths = λ r o. refl; updates_kept = refl })
validate_deletes_at-Trimmed (r ∷ rs) h d =
    let (h1, e, s) = validate_path_at-IsTrimmedAt r h in
    let (h2, f, t) = validate_deletes_at-Trimmed rs h1 d.1 in
    let rest : map (λ x. (trim (h1.paths x)).1) rs ≡ map (λ x. (trim (h.paths x)).1) rs =
      map_same (λ x. (trim (h1.paths x)).1) (λ x. (trim (h.paths x)).1) rs
        (λ x o. ap (λ p. (trim p).1) (s.others x (λ same. d.0 (rw same at o)))) in
    (
      h2,
      rw (e, f),
      record {
        trimmed = cc (t.other_paths r d.0 ∙ s.trimmed, t.trimmed ∙ rest);
        other_paths = λ x o. t.other_paths x (λ q. o (inr q)) ∙ s.others x (λ same. o (inl same));
        updates_kept = t.updates_kept ∙ s.updates_kept;
      },
    )

-- The paths of the updates, and the paths to delete, are objects of their own, each for one place.
pub record NoSharing (h : Heap) (n : NotificationCell) : Type 0 where
  pub own_paths : Distinct (map (λ u. (h.updates u).path) n.update)
  pub own_deletes : Distinct n.delete
  pub separate : (r : ℕ) → Occurs r (map (λ u. (h.updates u).path) n.update) → ¬ Occurs r n.delete

-- On a notification that shares no path object, the repair in place succeeds and returns the
-- notification's own pointers, and what is seen through them afterwards is what the repair of
-- values gives.
pub validate_notification_at-eq-values :
    (n : NotificationCell) (h : Heap)
    → NoSharing h n
    → (h' : Heap) × (validate_notification_at n h ≡ ok ((n.delete, n.update), h'))
      × (validate_notification (read_notification h n)
          ≡ ok (map h'.paths n.delete, map (read_update h') n.update))
unfolding validate_notification_at
validate_notification_at-eq-values n h own =
    let (h1, e, s) = validate_updates_at-Repaired n.update h own.own_paths in
    let (h2, f, t) = validate_deletes_at-Trimmed n.delete h1 own.own_deletes in
    let updates : map (read_update h2) n.update ≡ map trim_update (map (read_update h) n.update) =
      map_same (read_update h2) (read_update h1) n.update (λ x o.
        read_update-same h1 h2 x (ap (λ g. g x) t.updates_kept) (
          t.other_paths _ (
            own.separate _
              (rw (s.pointers x) (Occurs-map (λ u. (h.updates u).path) x n.update o)))))
      ∙ s.repaired in
    let deletes : map h2.paths n.delete ≡ map (λ r. (trim (h.paths r)).1) n.delete =
      t.trimmed
      ∙ map_same (λ r. (trim (h1.paths r)).1) (λ r. (trim (h.paths r)).1) n.delete
          (λ r o. ap (λ p. (trim p).1) (s.other_paths r (λ q. own.separate r q o))) in
    (
      h2,
      rw (e, f),
      validate_notification_lem (read_notification h n) ∙ λ i.
          ok ((map_twice (λ p. (trim p).1) h.paths n.delete ∙ sym deletes) i, sym updates i),
    )
