-- ===== src/Properties/Config/Success.antt =====
-- What holds of the properties after a configuration file is read with success.
use ibmiotf_cpp.Base.{
  ◌≡◌, refl, Bool, true, false, not, ◌&&◌, inl, inr, Bool-cases, Option, none, some, ok, arith,
  if◌then◌else◌, [],
}
use ibmiotf_cpp.Base.Exec.{Exec, pure, gets, modify, ◌>>=◌, ◌>>◌}
use ibmiotf_cpp.Json.{JsonLib}
use ibmiotf_cpp.Text.{Text, codes, is_empty}
use ibmiotf_cpp.Properties.{Properties, is_quickstart}
use ibmiotf_cpp.Properties.Config.{
  member, required, read_certificates, read_credentials, read_configuration, initialize_from_file,
}
use ibmiotf_cpp.DeviceClient.{can_initialize}
use ibmiotf_cpp.Properties.Config.Steps.{
  Triple, Unless, sequence, member-keeps, required-Triple, org_id-Triple, read_domain-Triple, flag,
  read_port-Triple, read_use_certs-Triple,
}

module _ (J : JsonLib) where
  -- The entries that every configuration has.
  abbrev Named : Text → Properties → Type 0
  Named org p = (is_empty p.domain ≡ false) × (p.org_id ≡ org) × (is_empty p.org_id ≡ false)

  abbrev Ready : Text → Properties → Type 0
  Ready org p = (Named org p × (is_empty p.device_type ≡ false)) × (is_empty p.device_id ≡ false)

  -- The entries that a configuration with credentials has, too.
  abbrev Credited : Text → Properties → Type 0
  Credited org p =
      ((Ready org p × (is_empty p.auth_method ≡ false)) × (is_empty p.auth_token ≡ false))
      × (is_empty p.trust_store ≡ false)

  abbrev Certified : Text → Properties → Type 0
  Certified org p =
      (Credited org p × (is_empty p.key_store ≡ false)) × (is_empty p.private_key ≡ false)

  abbrev pass_phrase_entry : JsonLib.Value J → Bool → Exec Properties Bool
  pass_phrase_entry root rc = do
    pass_phrase ← member J root (codes "clientKeyPassword") []
    modify (λ p. record p { key_pass_phrase = pass_phrase })
    pure rc

  abbrev certificate_entries : JsonLib.Value J → Bool → Exec Properties Bool
  certificate_entries root rc = do
    rc ← required J root (codes "clientCertPath") (λ t p. record p { key_store = t }) rc
    rc ← required J root (codes "clientKeyPath") (λ t p. record p { private_key = t }) rc
    pass_phrase_entry root rc

  read_certificates-Triple :
      (org : Text) (root : JsonLib.Value J) (rc : Bool)
      → Triple (Unless (Credited org) rc) (read_certificates J root rc) (Unless (Credited org))
  unfolding read_certificates
  read_certificates-Triple org root rc =
      sequence (Unless (Credited org) rc) (gets (λ p. p.use_certs))
        (λ use_certs. if not use_certs then pure rc else certificate_entries root rc)
        (λ _. Unless (Credited org) rc) (Unless (Credited org)) (record { run = λ p h a i. h })
        (λ use_certs. elim (Bool-cases use_certs) [
          | inr e ↦ record { run = λ p h. rw e (λ b i up. h (flag J i up)) }
          | inl e ↦ record { run = λ p h. rw e ((certificates rc).run p h) }
        ])
    where
      pass_phrase :
          (rc : Bool)
          → Triple (Unless (Certified org) rc) (pass_phrase_entry root rc) (Unless (Credited org))
      pass_phrase rc =
          sequence (Unless (Certified org) rc) (member J root (codes "clientKeyPassword") []) _
            (λ _. Unless (Certified org) rc) (Unless (Credited org))
            (member-keeps J (Unless (Certified org) rc) root (codes "clientKeyPassword") [])
            (λ text. record { run = λ p h b i up. (h (flag J i up)).0.0 })

      certificates :
          (rc : Bool)
          → Triple (Unless (Credited org) rc) (certificate_entries root rc) (Unless (Credited org))
      certificates rc =
          sequence (Unless (Credited org) rc) _ _ _ (Unless (Credited org))
            (required-Triple J (Credited org) (λ p. p.key_store) (λ t p. record p { key_store = t })
              (λ t p h. h) (λ t p. refl) root (codes "clientCertPath") rc)
            (λ rc.
              sequence (Unless (λ p. Credited org p × (is_empty p.key_store ≡ false)) rc) _ _ _
                (Unless (Credited org))
                (required-Triple J (λ p. Credited org p × (is_empty p.key_store ≡ false))
                  (λ p. p.private_key) (λ t p. record p { private_key = t }) (λ t p h. h)
                  (λ t p. refl) root (codes "clientKeyPath") rc)
                pass_phrase)

  read_credentials-Triple :
      (org : Text) (root : JsonLib.Value J) (rc : Bool)
      → Triple (Unless (Ready org) rc) (read_credentials J root rc) (Unless (Credited org))
  unfolding read_credentials
  read_credentials-Triple org root rc =
      sequence (Unless (Ready org) rc) _ _ _ (Unless (Credited org))
        (required-Triple J (Ready org) (λ p. p.auth_method) (λ t p. record p { auth_method = t })
          (λ t p h. h) (λ t p. refl) root (codes "Authentication-Method") rc)
        (λ rc.
          sequence (Unless (λ p. Ready org p × (is_empty p.auth_method ≡ false)) rc) _ _ _
            (Unless (Credited org))
            (required-Triple J (λ p. Ready org p × (is_empty p.auth_method ≡ false))
              (λ p. p.auth_token) (λ t p. record p { auth_token = t }) (λ t p h. h) (λ t p. refl)
              root (codes "Authentication-Token") rc)
            (λ rc.
              sequence
                (Unless
                  (λ p.
                    (Ready org p × (is_empty p.auth_method ≡ false))
                    × (is_empty p.auth_token ≡ false))
                  rc)
                _ _ _ (Unless (Credited org))
                (required-Triple J
                  (λ p.
                    (Ready org p × (is_empty p.auth_method ≡ false))
                    × (is_empty p.auth_token ≡ false))
                  (λ p. p.trust_store) (λ t p. record p { trust_store = t }) (λ t p h. h)
                  (λ t p. refl) root (codes "clientTrustStorePath") rc)
                (λ rc.
                  sequence (Unless (Credited org) rc) _ _ _ (Unless (Credited org))
                    (read_use_certs-Triple J (Credited org) (λ c p h. h) root rc)
                    (read_certificates-Triple org root))))

  -- The properties pass the tests of a device client's InitializeMqttClient.
  abbrev Usable : Properties → Type 0
  Usable p = can_initialize p ≡ true

  Ready-Usable :
      (org : Text) (p : Properties)
      → Ready org p
      → not (is_quickstart org) && is_empty p.trust_store ≡ false
      → Usable p
  unfolding can_initialize
  Ready-Usable org p h e = rw (h.0.0.2, h.0.0.0, h.0.1, h.1, h.0.0.1, e)

  read_configuration-Triple :
      (root : JsonLib.Value J)
      → Triple (λ p. is_empty p.domain ≡ false) (read_configuration J root) (Unless Usable)
  unfolding read_configuration
  read_configuration-Triple root =
      sequence (λ p. is_empty p.domain ≡ false) (member J root (codes "Organization-ID") []) _
        (λ _ p. is_empty p.domain ≡ false) (Unless Usable)
        (member-keeps J (λ p. is_empty p.domain ≡ false) root (codes "Organization-ID") [])
        (λ org.
          sequence (λ p. is_empty p.domain ≡ false) _ _ _ (Unless Usable)
            (org_id-Triple J (λ p. is_empty p.domain ≡ false) (λ t p h. h) org)
            (λ rc.
              sequence (Unless (Named org) rc) _ _ _ (Unless Usable)
                (read_domain-Triple J (Named org) (λ t p e h. (e, h.1, h.2)) root rc)
                (λ _.
                  sequence (Unless (Named org) rc) _ _ _ (Unless Usable)
                    (required-Triple J (Named org) (λ p. p.device_type)
                      (λ t p. record p { device_type = t }) (λ t p h. h) (λ t p. refl) root
                      (codes "Device-Type") rc)
                    (λ rc.
                      sequence (Unless (λ p. Named org p × (is_empty p.device_type ≡ false)) rc) _ _
                        _ (Unless Usable)
                        (required-Triple J (λ p. Named org p × (is_empty p.device_type ≡ false))
                          (λ p. p.device_id) (λ t p. record p { device_id = t }) (λ t p h. h)
                          (λ t p. refl) root (codes "Device-ID") rc)
                        (λ rc.
                          sequence (Unless (Ready org) rc) _ _ _ (Unless Usable)
                            (read_port-Triple J (Ready org) (λ n p h. h) root rc)
                            (credentials org))))))
    where
      credentials :
          (org : Text) (rc : Bool)
          → Triple
              (Unless (Ready org) rc)
              (if is_quickstart org then pure rc else read_credentials J root rc)
              (Unless Usable)
      credentials org rc = elim (Bool-cases (is_quickstart org)) [
        | inl q ↦ record {
          run = λ p h. rw q (λ b i up. Ready-Usable org p (h (flag J i up)) (rw q));
        }
        | inr q ↦ record {
          run = λ p h. rw q (λ b i up.
              let c = (read_credentials-Triple org root rc).run p h b i up in
              Ready-Usable org _ c.0.0.0 (rw (q, c.1)));
        }
      ]

  -- A configuration that is read with success makes a device client that can be initialized: the
  -- properties pass the tests of its InitializeMqttClient. The domain is not empty before, as the
  -- default properties have one.
  pub initialize_from_file-can_initialize :
      (file : Option Text) (p : Properties)
      → is_empty p.domain ≡ false
      → (initialize_from_file J file p).0 ≡ ok true
      → can_initialize (initialize_from_file J file p).1 ≡ true
  unfolding initialize_from_file
  initialize_from_file-can_initialize none p d e = absurd (ground arith)
  initialize_from_file-can_initialize (some text) p d e = parsed (J.parse text) e
    where
      parsed :
          (r : Option (JsonLib.Value J))
          → (elim r as (λ _. Exec Properties Bool) [
            | none ↦ pure false
            | some root ↦ read_configuration J root
          ]
              p).0
            ≡ ok true
          → can_initialize
              (elim r as (λ _. Exec Properties Bool) [
                | none ↦ pure false
                | some root ↦ read_configuration J root
              ]
                p).1
            ≡ true
      parsed none i = absurd (ground arith)
      parsed (some root) i = (read_configuration-Triple root).run p d true i refl
