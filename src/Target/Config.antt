-- ===== src/Target/Config.antt =====
-- When `get_config` succeeds.
use config_srl.Prelude.{◌≡◌, refl, sym, ap, ◌∙◌, ◌↔◌, String, Option, List, [], ◌∷◌}
use config_srl.Prelude.Outcome.{
  Outcome, ok, err, panic, Error, wrap, wrap_err, is_ok, is_err, is_panic, Outcome-Cases,
}
use config_srl.Prelude.Effect.{Eff, lift, >>=-ok, >>=-err, >>=-panic}
use config_srl.Prelude.Calls.{call_wrapped}
use config_srl.Gnmi.{Update, Notification, GetRequest, GetResponse}
use config_srl.Target.{
  GnmiTarget, GetOption, get_error, path_option, data_type_option, encoding_option, single_value,
  get_wrapped, get_config,
}

module _ (t : GnmiTarget) (vendor : String) where
  open t use {World, Value}

  -- The response is one notification with the one update `u`.
  abbrev pub Single : List Notification → Update → Type 0
  Single ns u = (n : Notification) × (ns ≡ n ∷ []) × (n.update ≡ u ∷ [])

  single_value-Single :
      (n : Notification) (us : List Update) {v : Option Value}
      → n.update ≡ us
      → single_value t vendor (n ∷ []) ≡ ok v
      → (u : Update) × Single (n ∷ []) u × (t.get_value u.val ≡ ok v)
  unfolding single_value
  single_value-Single n [] e h = cc (rw (e, single_value) at h)
  single_value-Single n (u ∷ []) e h = (u, (n, refl, e), cc (rw (e, single_value) at h))
  single_value-Single n (u ∷ v ∷ us) e h = cc (rw (e, single_value) at h)

  single_value-eq-ok :
      (ns : List Notification) {v : Option Value}
      → single_value t vendor ns ≡ ok v
      → (u : Update) × Single ns u × (t.get_value u.val ≡ ok v)
  unfolding single_value
  single_value-eq-ok [] h = cc
  single_value-eq-ok (n ∷ []) h = single_value-Single n n.update refl h
  single_value-eq-ok (n ∷ m ∷ ns) h = cc

  Single-single_value :
      (ns : List Notification) (u : Update)
      → Single ns u
      → single_value t vendor ns ≡ t.get_value u.val
  unfolding single_value
  Single-single_value ns u (n, e, f) = rw (e, f, single_value)

  abbrev pub config_options : List GetOption
  config_options = path_option "" ∷ data_type_option "config" ∷ encoding_option "json_ietf" ∷ []

  module _ (w : World) (req : GetRequest) (h : t.new_get_request config_options ≡ ok req) where
    wrapped :
        (r : Outcome GetResponse)
        → (t.get req w).0 ≡ r
        → (get_wrapped t vendor req w).0 ≡ wrap_err get_error r
    unfolding get_wrapped call_wrapped
    wrapped r e = ap (wrap_err get_error) e

    abbrev read : GetResponse → Eff World (Option Value)
    read rsp = lift (single_value t vendor rsp.notification)

    get_config_ok :
        (rsp : GetResponse)
        → (t.get req w).0 ≡ ok rsp
        → (get_config t vendor w).0 ≡ single_value t vendor rsp.notification
    unfolding get_config
    get_config_ok rsp e =
        rw h (ap (λ r. r.0) (>>=-ok (get_wrapped t vendor req) read w (wrapped (ok rsp) e)))

    get_config_err :
        (x : Error) → (t.get req w).0 ≡ err x → (get_config t vendor w).0 ≡ err (wrap x get_error)
    unfolding get_config
    get_config_err x e =
        rw h (ap (λ r. r.0) (>>=-err (get_wrapped t vendor req) read w (wrapped (err x) e)))

    get_config_panic : (t.get req w).0 ≡ panic → (get_config t vendor w).0 ≡ panic
    unfolding get_config
    get_config_panic e =
        rw h (ap (λ r. r.0) (>>=-panic (get_wrapped t vendor req) read w (wrapped panic e)))

    -- Once its request is made, the call succeeds exactly if the target answers with one
    -- notification that has one update, and the value of this decodes; the value is the result.
    pub get_config_iff :
        (v : Option Value)
        → ((get_config t vendor w).0 ≡ ok v) ↔ (
            (rsp : GetResponse) × (u : Update) × ((t.get req w).0 ≡ ok rsp)
            × Single rsp.notification u
            × (t.get_value u.val ≡ ok v))
    get_config_iff v = (forwards, backwards)
      where
        forwards :
            (get_config t vendor w).0 ≡ ok v
            → (rsp : GetResponse) × (u : Update) × ((t.get req w).0 ≡ ok rsp)
              × Single rsp.notification u
              × (t.get_value u.val ≡ ok v)
        forwards g = elim (Outcome-Cases (t.get req w).0) [
          | is_ok rsp e ↦
              let (u, s, d) = single_value-eq-ok rsp.notification (sym (get_config_ok rsp e) ∙ g) in
              (rsp, u, e, s, d)
          | is_err x e ↦ cc (get_config_err x e)
          | is_panic e ↦ cc (get_config_panic e)
        ]

        backwards :
            ((rsp : GetResponse) × (u : Update) × ((t.get req w).0 ≡ ok rsp)
              × Single rsp.notification u
              × (t.get_value u.val ≡ ok v))
            → (get_config t vendor w).0 ≡ ok v
        backwards (rsp, u, e, s, d) =
            get_config_ok rsp e ∙ Single-single_value rsp.notification u s ∙ d
