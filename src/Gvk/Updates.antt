-- ===== src/Gvk/Updates.antt =====
-- The map that `get_updates` fills, key by key.
use config_srl.Prelude.{
  ◌≡◌, refl, ◌==◌, eq_iff, String, Option, none, some, List, [], ◌∷◌, if◌then◌else◌, Bool, true,
  false, ◌∙◌, sym,
}
use config_srl.Prelude.Dict.{Dict, lookup, insert, lookup-insert}
use config_srl.Prelude.Outcome.{
  Outcome, ok, is_ok, is_err, is_panic, Outcome-Cases, ◌>>=◌, >>=_assoc,
}
use config_srl.Gnmi.{Update}
use config_srl.System.{GvkUpdate}
use config_srl.Libraries.{Codec}
use config_srl.Gvk.{encode, get_updates_from, get_updates}

-- The entry at `x`.
abbrev pub entry_at : String → String → GvkUpdate
entry_at x v = record { path = some x; value = some v }

-- The entry of the last pair at `x`, or `old` if there is none.
abbrev pub last_entry : String → Option GvkUpdate → List (String × String) → Option GvkUpdate
last_entry x old [] = old
last_entry x old ((k, v) ∷ ps) = last_entry x (if k == x then some (entry_at x v) else old) ps

lookup-insert_entry :
    (x k v : String) (d : Dict GvkUpdate)
    → lookup x (insert k (entry_at k v) d) ≡ (if k == x then some (entry_at x v) else lookup x d)
lookup-insert_entry x k v d =
    lookup-insert k x (entry_at k v) d ∙ same (k == x) (λ h. (eq_iff k x).0 h)
  where
    same :
        (b : Bool)
        → (b ≡ true → k ≡ x)
        → (if b then some (entry_at k v) else lookup x d)
          ≡ (if b then some (entry_at x v) else lookup x d)
    same true h = rw (h refl)
    same false h = refl

module _ (lib : Codec) where
  -- Each update's path and value as texts, in order; the first that does not encode ends it.
  abbrev pub encoded : List Update → Outcome (List (String × String))
  encoded [] = ok []
  encoded (u ∷ us) =
      encode lib u.val >>= λ v. (encoded us >>= λ ps. ok ((lib.to_xpath u.path, v) ∷ ps))

  get_updates_from_lem :
      (us : List Update) (d : Dict GvkUpdate) (x : String)
      → (get_updates_from lib d us >>= λ d'. ok (lookup x d'))
        ≡ (encoded us >>= λ ps. ok (last_entry x (lookup x d) ps))
  unfolding get_updates_from
  get_updates_from_lem [] d x = refl
  get_updates_from_lem (u ∷ us) d x = elim (Outcome-Cases (encode lib u.val)) [
    | is_ok v e ↦
        let k = lib.to_xpath u.path in
        let ih = get_updates_from_lem us (insert k (entry_at k v) d) x in
        rw e (rw lookup-insert_entry at ih ∙ sym (>>=_assoc (encoded us) _ _))
    | is_err f e ↦ rw e
    | is_panic e ↦ rw e
  ]

  -- The call fails exactly as the encoding of its updates does, one after the other. Otherwise the
  -- map holds at every path, as text, the value of the last update at it, under its own path, and
  -- nothing else.
  pub get_updates_lem :
      (us : List Update) (x : String)
      → (get_updates lib us >>= λ d. ok (lookup x d))
        ≡ (encoded us >>= λ ps. ok (last_entry x none ps))
  unfolding get_updates lookup
  get_updates_lem us x = get_updates_from_lem us [] x
