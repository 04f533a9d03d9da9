-- ===== src/Connector/Failures.antt =====
-- How `connect` ends when one of its steps fails.
use config_srl.Prelude.{
  ◌≡◌, ◌≢◌, String, ◌==◌, none, some, ◌∙◌, [], ◌∷◌, Bool-cases, inl, inr, eq_iff,
}
use config_srl.Prelude.Outcome.{Outcome, ok, err, panic, Error, wrap}
use config_srl.Prelude.Calls.{
  check, call_wrapped, check-none, check-some, call_wrapped-ok, call_wrapped-err,
}
use config_srl.Api.{Reference, SrlConfig, srl_config}
use config_srl.Prelude.Effect.{lift, >>=-ok_at, >>=-err_at}
use config_srl.Connector.Laws.{dialled_config, tracking, referring, getting, finding, dialling}
use config_srl.Connector.{
  TargetObject, ExternalDevice, Services, find_address, client_config, connect, cannot_track,
  cannot_get_target, cannot_query, cannot_create_client,
}

module _ (s : Services) (cr : SrlConfig) (w : s.World) where
  open s use {World}

  -- The steps that went well before the address is looked for: the target `t` of `reference` is read,
  -- in the state `w2`.
  pub record Reads (reference : Reference) (t : TargetObject) (w2 : World) : Type 0 where
    pub after_track : World
    pub tracked : s.track (srl_config cr) w ≡ (none, after_track)
    pub has_reference : cr.spec.target_reference ≡ some reference
    pub got : s.get_target cr.metadata.namespace reference.name after_track ≡ (ok t, w2)

  -- The first step that fails, with what `connect` should end in and the state that is left.
  pub data Stops : Outcome ExternalDevice → World → Type 0 where
    at_track :
        (e : Error) (w1 : World)
        → s.track (srl_config cr) w ≡ (some e, w1)
        → Stops (err (wrap e cannot_track)) w1
    at_reference :
        (w1 : World)
        → s.track (srl_config cr) w ≡ (none, w1)
        → cr.spec.target_reference ≡ none
        → Stops panic w1
    at_target :
        (reference : Reference) (e : Error) (w1 w2 : World)
        → s.track (srl_config cr) w ≡ (none, w1)
        → cr.spec.target_reference ≡ some reference
        → s.get_target cr.metadata.namespace reference.name w1 ≡ (err e, w2)
        → Stops (err (wrap e cannot_get_target)) w2
    at_address :
        (reference : Reference) (t : TargetObject) (e : Error) (w2 w3 : World)
        → Reads reference t w2
        → s.getenv "SERVICE_DISCOVERY" ≢ ""
        → s.get_endpoint_address (s.getenv "SERVICE_NAME") (s.get_target_tag t.namespace t.name) w2
          ≡ (err e, w3)
        → Stops (err (wrap e cannot_query)) w3
    at_dial :
        (reference : Reference) (t : TargetObject) (address : String) (e : Error) (w2 w3 w4 : World)
        → Reads reference t w2
        → find_address s t w2 ≡ (ok address, w3)
        → s.create_gnmi_client (dialled_config s reference.name address) w3 ≡ (some e, w4)
        → Stops (err (wrap e cannot_create_client)) w4

  connect-tracked :
      (w1 : World)
      → s.track (srl_config cr) w ≡ (none, w1)
      → connect s (srl_config cr) w ≡ referring s cr tt w1
  unfolding connect tracking
  connect-tracked w1 h =
      >>=-ok_at (check cannot_track (s.track (srl_config cr))) (referring s cr) w
        (check-none cannot_track (s.track (srl_config cr)) w h)

  referring-some :
      (reference : Reference) (w1 : World)
      → cr.spec.target_reference ≡ some reference
      → referring s cr tt w1 ≡ getting s cr reference w1
  unfolding referring
  referring-some reference w1 r = rw r

  connect-Reads :
      (reference : Reference) (t : TargetObject) (w2 : World)
      → Reads reference t w2
      → connect s (srl_config cr) w ≡ finding s reference t w2
  unfolding getting
  connect-Reads reference t w2 p =
      let get_target = s.get_target cr.metadata.namespace reference.name in
      connect-tracked p.after_track p.tracked
      ∙ referring-some reference p.after_track p.has_reference
      ∙ >>=-ok_at (call_wrapped cannot_get_target get_target) (finding s reference) p.after_track
          (call_wrapped-ok cannot_get_target get_target p.after_track p.got)

  finding-at_dial :
      (reference : Reference) (t : TargetObject) (address : String) {e : Error} (w2 w3 : World)
      {w4 : World}
      → find_address s t w2 ≡ (ok address, w3)
      → s.create_gnmi_client (client_config reference.name address) w3 ≡ (some e, w4)
      → finding s reference t w2 ≡ (err (wrap e cannot_create_client), w4)
  unfolding finding dialling
  finding-at_dial reference t address w2 w3 f d =
      let dial = s.create_gnmi_client (client_config reference.name address) in
      >>=-ok_at (find_address s t) (dialling s reference t) w2 f
      ∙ >>=-err_at (check cannot_create_client dial)
          (λ _.
            lift (
              ok (record { client = client_config reference.name address; targets = t.name ∷ [] })))
          w3 (check-some cannot_create_client dial w3 d)

  find_address_err :
      (t : TargetObject) (w2 w3 : World) (e : Error)
      → s.getenv "SERVICE_DISCOVERY" ≢ ""
      → s.get_endpoint_address (s.getenv "SERVICE_NAME") (s.get_target_tag t.namespace t.name) w2
        ≡ (err e, w3)
      → find_address s t w2 ≡ (err (wrap e cannot_query), w3)
  unfolding find_address
  find_address_err t w2 w3 e d f = elim (Bool-cases (s.getenv "SERVICE_DISCOVERY" == "")) [
    | inl empty ↦ absurd (d ((eq_iff _ _).0 empty))
    | inr full ↦
        let ask =
          s.get_endpoint_address (s.getenv "SERVICE_NAME") (s.get_target_tag t.namespace t.name) in
        rw full (call_wrapped-err cannot_query ask w2 f)
  ]

  -- Connecting ends at the first step that fails, with the error of this step, and leaves the state
  -- that the step left: no later step is taken. A resource without a target reference panics after
  -- its use was tracked.
  pub connect-Stops :
      (result : Outcome ExternalDevice) (w' : World)
      → Stops result w'
      → connect s (srl_config cr) w ≡ (result, w')
  unfolding connect tracking referring getting finding
  connect-Stops _ _ (at_track e w1 h) =
      >>=-err_at (check cannot_track (s.track (srl_config cr))) (referring s cr) w
        (check-some cannot_track (s.track (srl_config cr)) w h)
  connect-Stops _ _ (at_reference w1 h r) = connect-tracked w1 h ∙ rw r
  connect-Stops _ _ (at_target reference e w1 w2 h r g) =
      let get_target = s.get_target cr.metadata.namespace reference.name in
      connect-tracked w1 h
      ∙ referring-some reference w1 r
      ∙ >>=-err_at (call_wrapped cannot_get_target get_target) (finding s reference) w1
          (call_wrapped-err cannot_get_target get_target w1 g)
  connect-Stops _ _ (at_address reference t e w2 w3 p d f) =
      connect-Reads reference t w2 p
      ∙ >>=-err_at (find_address s t) (dialling s reference t) w2 (find_address_err t w2 w3 e d f)
  connect-Stops _ _ (at_dial reference t address e w2 w3 w4 p f d) =
      connect-Reads reference t w2 p ∙ finding-at_dial reference t address w2 w3 f d
