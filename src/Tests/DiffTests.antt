-- ===== src/Tests/DiffTests.antt =====
-- The repair of paths and notifications, on the paths of the comments in utils.go.
use config_srl.Prelude.{
  ℕ, zero, suc, ◌≡◌, ◌⊎◌, refl, String, true, false, List, [], ◌∷◌, map, arith, inl, inr,
}
use config_srl.Prelude.Dict.{lookup}
use config_srl.Prelude.Outcome.{ok, ◌>>=◌}
use config_srl.Gnmi.{PathElem, GnmiPath, string_val, Notification}
use config_srl.Diff.{validate_path, empty_object, validate_notification}
use config_srl.Diff.Heap.{
  Heap, NotificationCell, validate_notification_at, read_update, read_notification,
}
use config_srl.Diff.Heap.Refinement.{NoSharing, validate_notification_at-eq-values}
use config_srl.Diff.Trim.{Trims, validate_path_correct}
use config_srl.Diff.Repair.{validate_notification_lem}

abbrev node : String → PathElem
node name = record { name = name; key = [] }

abbrev entry_of : String → String → String → PathElem
entry_of name key value = record { name = name; key = (key, value) ∷ [] }

abbrev path : List PathElem → GnmiPath
path es = record { target = ""; origin = ""; elem = es }

-- /interface[name=ethernet-1/49]/subinterface[index=1]/ipv4/address[ip-prefix=100.64.0.0/31]
abbrev address : List PathElem
address =
    entry_of "interface" "name" "ethernet-1/49"
    ∷ entry_of "subinterface" "index" "1"
    ∷ node "ipv4"
    ∷ entry_of "address" "ip-prefix" "100.64.0.0/31"
    ∷ []

abbrev key_leaf : GnmiPath
key_leaf = path (
    entry_of "interface" "name" "ethernet-1/49"
    ∷ entry_of "subinterface" "index" "1"
    ∷ node "ipv4"
    ∷ entry_of "address" "ip-prefix" "100.64.0.0/31"
    ∷ node "ip-prefix"
    ∷ [])

key_leaf_is_cut : validate_path key_leaf ≡ ok (true, path address)
unfolding validate_path lookup
key_leaf_is_cut = refl

-- A path outside any schema, whose key has keys itself: a second repair cuts it again.
cut_twice :
    (validate_path (path (entry_of "x" "a" "1" ∷ entry_of "a" "b" "2" ∷ node "b" ∷ []))
      ≡ ok (true, path (entry_of "x" "a" "1" ∷ entry_of "a" "b" "2" ∷ [])))
    × (validate_path (path (entry_of "x" "a" "1" ∷ entry_of "a" "b" "2" ∷ []))
        ≡ ok (true, path (entry_of "x" "a" "1" ∷ [])))
unfolding validate_path lookup
cut_twice = (refl, refl)

abbrev notification : Notification
notification = record {
  update = record { path = key_leaf; val = string_val "100.64.0.0/31" } ∷ [];
  delete = path address ∷ [];
}

validate_path_correct_example :
    ((q : GnmiPath) × (validate_path key_leaf ≡ ok (true, q)) × Trims key_leaf q)
    ⊎ ((validate_path key_leaf ≡ ok (false, key_leaf)) × ((q : GnmiPath) → ¬ Trims key_leaf q))
validate_path_correct_example = validate_path_correct key_leaf

validate_notification_example :
    validate_notification notification
    ≡ ok (path address ∷ [], record { path = path address; val = empty_object } ∷ [])
unfolding lookup
validate_notification_example = validate_notification_lem notification

-- Path 0 is the key leaf, every other path is its parent; update 0 and update 1 lead to path 0.
abbrev path_at : ℕ → GnmiPath
path_at zero = key_leaf
path_at (suc _) = path address

abbrev heap : Heap
heap = record {
  paths = path_at;
  updates = λ u. record { path = 0; val = string_val "100.64.0.0/31" };
}

abbrev pointers : NotificationCell
pointers = record { update = 0 ∷ []; delete = 1 ∷ [] }

pointers-NoSharing : NoSharing heap pointers
pointers-NoSharing = record {
  own_paths = ((λ o. o), tt);
  own_deletes = ((λ o. o), tt);
  separate =
      λ r o q. elim o [ inl a ↦ elim q [ inl b ↦ absurd (omega arith) | inr z ↦ z ] | inr z ↦ z ];
}

validate_notification_at-eq-values_example :
    (h' : Heap) × (validate_notification_at pointers heap ≡ ok ((1 ∷ [], 0 ∷ []), h'))
    × (validate_notification (read_notification heap pointers)
        ≡ ok (h'.paths 1 ∷ [], read_update h' 0 ∷ []))
validate_notification_at-eq-values_example =
    validate_notification_at-eq-values pointers heap pointers-NoSharing

-- Two updates at one path object: the second finds the path cut, and keeps the value of the key leaf.
shared_path :
    (validate_notification_at (record { update = 0 ∷ 1 ∷ []; delete = [] }) heap >>= λ (_, h).
    ok (map (read_update h) (0 ∷ 1 ∷ [])))
    ≡ ok (
        record { path = path address; val = empty_object }
        ∷ record { path = path address; val = string_val "100.64.0.0/31" }
        ∷ [])
unfolding validate_notification_at lookup validate_path
shared_path = refl
