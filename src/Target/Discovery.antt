-- ===== src/Target/Discovery.antt =====
-- What `discover` reports, path by path.
use mathlib.Core.List.{flat_map}
use config_srl.Prelude.{
  ◌≡◌, refl, ◌∙◌, sym, String, ◌==◌, eq_iff, List, [], ◌∷◌, ◌++◌, arith, if◌then◌else◌, Bool, ap,
  Bool-cases, inl, inr, true, false,
}
use config_srl.Prelude.Lists.{last_or}
use config_srl.Prelude.Outcome.{ok, ◌>>=◌, is_ok, is_err, is_panic, Outcome-Cases}
use config_srl.Gnmi.{get_string_val, Update, Notification, GetRequest}
use config_srl.Target.{
  GnmiTarget, path_option, encoding_option, data_type_option, sw_version_path, chassis_path,
  DiscoveryInfo, discover_update, discover_updates, discover_notifications, discover,
}

distinct : (x a b : String) → (a == b) ≡ false → (x == a) ≡ true → (x == b) ≡ false
distinct x a b d h = rw ((eq_iff x a).0 h) d

-- The first text that is not empty, or the empty one.
abbrev pub first_non_empty : List String → String
first_non_empty [] = ""
first_non_empty (s ∷ ss) = if s == "" then first_non_empty ss else s

last-cons :
    (b : Bool) (v old : String) (vs : List String)
    → last_or (if b then v else old) vs ≡ last_or old (if b then v ∷ vs else vs)
last-cons true v old vs = refl
last-cons false v old vs = refl

first-cons :
    (b : Bool) (v old : String) (vs : List String)
    → first_non_empty ((if b then (if old == "" then v else old) else old) ∷ vs)
      ≡ first_non_empty (old ∷ (if b then v ∷ vs else vs))
first-cons false v old vs = refl
first-cons true v old vs = elim (Bool-cases (old == "")) [ inl e ↦ simp e | inr e ↦ simp e ]

module _ (t : GnmiTarget) (vendor : String) where
  open t use {to_xpath, World}

  -- The texts of the updates at the path `x`, in order.
  abbrev pub values_at : String → List Update → List String
  values_at x [] = []
  values_at x (u ∷ us) =
      let rest = values_at x us in
      if to_xpath u.path == x then get_string_val u.val ∷ rest else rest

  -- Each field after one update. A path that is one of the four is none of the others.
  module _ (info : DiscoveryInfo) (u : Update) where
    abbrev xpath : String
    xpath = to_xpath u.path

    abbrev text : String
    text = get_string_val u.val

    sw_version-step : (discover_update t vendor info u).sw_version ≡ (
        if xpath == "platform/control/software-version"
        then (if info.sw_version == "" then text else info.sw_version)
        else info.sw_version)
    unfolding discover_update
    sw_version-step = ground arith

    platform-step :
        (discover_update t vendor info u).platform
        ≡ (if xpath == "platform/chassis/type" then text else info.platform)
    unfolding discover_update
    platform-step =
        ground
          (arith, distinct xpath "platform/chassis/type" "platform/control/software-version" refl)

    serial_number-step :
        (discover_update t vendor info u).serial_number
        ≡ (if xpath == "platform/chassis/serial-number" then text else info.serial_number)
    unfolding discover_update
    serial_number-step = ground (
      arith,
      distinct xpath "platform/chassis/serial-number" "platform/control/software-version" refl,
      distinct xpath "platform/chassis/serial-number" "platform/chassis/type" refl,
    )

    mac_address-step :
        (discover_update t vendor info u).mac_address
        ≡ (if xpath == "platform/chassis/hw-mac-address" then text else info.mac_address)
    unfolding discover_update
    mac_address-step = ground (
      arith,
      distinct xpath "platform/chassis/hw-mac-address" "platform/control/software-version" refl,
      distinct xpath "platform/chassis/hw-mac-address" "platform/chassis/type" refl,
      distinct xpath "platform/chassis/hw-mac-address" "platform/chassis/serial-number" refl,
    )

    vendor_type-step : (discover_update t vendor info u).vendor_type ≡ info.vendor_type
    unfolding discover_update
    vendor_type-step = ground arith

  -- The details found in a sequence of updates, on top of `info`.
  abbrev details : DiscoveryInfo → List Update → DiscoveryInfo
  details info us = record {
    vendor_type = info.vendor_type;
    sw_version =
        first_non_empty (info.sw_version ∷ values_at "platform/control/software-version" us);
    platform = last_or info.platform (values_at "platform/chassis/type" us);
    serial_number = last_or info.serial_number (values_at "platform/chassis/serial-number" us);
    mac_address = last_or info.mac_address (values_at "platform/chassis/hw-mac-address" us);
  }

  details-cons :
      (info : DiscoveryInfo) (u : Update) (us : List Update)
      → details (discover_update t vendor info u) us ≡ details info (u ∷ us)
  details-cons info u us =
      let b = λ (x : String). to_xpath u.path == x in
      let v = get_string_val u.val in
      λ i. record {
        vendor_type = vendor_type-step info u i;
        sw_version =
            (ap (λ z. first_non_empty (z ∷ values_at "platform/control/software-version" us))
                  (sw_version-step info u)
                ∙ first-cons (b "platform/control/software-version") v info.sw_version
                    (values_at "platform/control/software-version" us))
              i;
        platform =
            (ap (λ z. last_or z (values_at "platform/chassis/type" us)) (platform-step info u)
                ∙ last-cons (b "platform/chassis/type") v info.platform
                    (values_at "platform/chassis/type" us))
              i;
        serial_number =
            (ap (λ z. last_or z (values_at "platform/chassis/serial-number" us))
                  (serial_number-step info u)
                ∙ last-cons (b "platform/chassis/serial-number") v info.serial_number
                    (values_at "platform/chassis/serial-number" us))
              i;
        mac_address =
            (ap (λ z. last_or z (values_at "platform/chassis/hw-mac-address" us))
                  (mac_address-step info u)
                ∙ last-cons (b "platform/chassis/hw-mac-address") v info.mac_address
                    (values_at "platform/chassis/hw-mac-address" us))
              i;
      }

  discover_updates-eq-details :
      (us : List Update) (info : DiscoveryInfo)
      → discover_updates t vendor info us ≡ details info us
  unfolding discover_updates
  discover_updates-eq-details [] info = ground (arith, eq_iff info.sw_version "")
  discover_updates-eq-details (u ∷ us) info =
      discover_updates-eq-details us (discover_update t vendor info u) ∙ details-cons info u us

  discover_updates-append :
      (us vs : List Update) (info : DiscoveryInfo)
      → discover_updates t vendor info (us ++ vs)
        ≡ discover_updates t vendor (discover_updates t vendor info us) vs
  unfolding discover_updates
  discover_updates-append [] vs info = refl
  discover_updates-append (u ∷ us) vs info =
      discover_updates-append us vs (discover_update t vendor info u)

  discover_notifications-eq-updates :
      (ns : List Notification) (info : DiscoveryInfo)
      → discover_notifications t vendor info ns
        ≡ discover_updates t vendor info (flat_map (λ n. n.update) ns)
  unfolding discover_notifications flat_map
  discover_notifications-eq-updates [] info = refl
  discover_notifications-eq-updates (n ∷ ns) info =
      discover_notifications-eq-updates ns (discover_updates t vendor info n.update)
      ∙ sym (discover_updates-append n.update _ info)

  -- Once its request is made, the driver reports the vendor, the first software version that is
  -- not empty, and of each other detail the last one, of the updates of the response, one
  -- notification after the other. It fails exactly as the read does.
  pub discover_lem :
      (w : World) (req : GetRequest)
      → t.new_get_request (
          path_option sw_version_path
          ∷ path_option chassis_path
          ∷ encoding_option "ascii"
          ∷ data_type_option "state"
          ∷ [])
        ≡ ok req
      → (discover t vendor w).0 ≡ (
          (t.get req w).0 >>= λ rsp.
          let us = flat_map (λ n. n.update) rsp.notification in
          ok (record {
            vendor_type = vendor;
            sw_version = first_non_empty (values_at "platform/control/software-version" us);
            platform = last_or "" (values_at "platform/chassis/type" us);
            serial_number = last_or "" (values_at "platform/chassis/serial-number" us);
            mac_address = last_or "" (values_at "platform/chassis/hw-mac-address" us);
          }))
  unfolding discover
  discover_lem w req h = elim (Outcome-Cases (t.get req w).0) [
    | is_ok rsp e ↦ rw (h, e, discover_notifications-eq-updates, discover_updates-eq-details)
    | is_err x e ↦ rw (h, e)
    | is_panic e ↦ rw (h, e)
  ]
