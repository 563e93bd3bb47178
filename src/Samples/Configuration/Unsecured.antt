-- ===== src/Samples/Configuration/Unsecured.antt =====
-- The configurations of the samples with an InitializeProperties of their own have no trust store.
use ibmiotf_cpp.Base.{
  ◌≡◌, refl, ap, Bool, true, false, inl, inr, Bool-cases, Option, none, some, ok, arith, [],
}
use ibmiotf_cpp.Base.Exec.{Exec, pure}
use ibmiotf_cpp.Json.{JsonLib}
use ibmiotf_cpp.Text.{Text, codes, is_empty}
use ibmiotf_cpp.Properties.{Properties, is_quickstart}
use ibmiotf_cpp.Properties.Config.{member}
use ibmiotf_cpp.Properties.Config.Steps.{Triple, Unless, sequence, member-keeps}
use ibmiotf_cpp.DeviceClient.{can_initialize}
use ibmiotf_cpp.Samples.Configuration.{
  entry, read_domain, read_credentials, read_properties, initialize_properties,
}

-- What holds of the properties before and behind each entry.
abbrev Bare : Properties → Type 0
Bare p = (p.trust_store ≡ []) × (is_empty p.domain ≡ false)

abbrev Named : Properties → Type 0
Named p = Bare p × (is_empty p.org_id ≡ false)

abbrev Typed : Properties → Type 0
Typed p = Named p × (is_empty p.device_type ≡ false)

abbrev Ready : Properties → Type 0
Ready p = Typed p × (is_empty p.device_id ≡ false)

module _ (J : JsonLib) (root : JsonLib.Value J) where
  entry-Triple :
      (P R : Properties → Type 0) (g : Properties → Text) (key : Text)
      (setter : Text → Properties → Properties) (rest : Exec Properties Bool)
      → ((t : Text) (p : Properties) → P p → P (setter t p))
      → ((t : Text) (p : Properties) → g (setter t p) ≡ t)
      → Triple (λ q. P q × (is_empty (g q) ≡ false)) rest (Unless R)
      → Triple P (entry J root key setter rest) (Unless R)
  unfolding entry
  entry-Triple P R g key setter rest keeps sets t =
      sequence P (member J root key []) _ (λ _. P) (Unless R) (member-keeps J P root key [])
        (λ text. elim (Bool-cases (is_empty text)) [
          | inl e ↦ record { run = λ p h. rw e (λ b i up. absurd (ground arith)) }
          | inr e ↦ record {
            run = λ p h. rw e (t.run (setter text p) (keeps text p h, rw (sets text p) e));
          }
        ])

  credentials-Triple : Triple Ready (read_credentials J root) (Unless Ready)
  unfolding read_credentials
  credentials-Triple = record {
    run = λ p h. elim (Bool-cases (is_quickstart p.org_id)) [
      | inl q ↦ rw q (λ b i up. h)
      | inr q ↦ rw q (
          (entry-Triple Ready Ready (λ p. p.auth_method) (codes "Authentication-Method")
              (λ t p. record p { auth_method = t }) _ (λ t p h. h) (λ t p. refl)
              (entry-Triple (λ p. Ready p × (is_empty p.auth_method ≡ false)) Ready
                (λ p. p.auth_token) (codes "Authentication-Token")
                (λ t p. record p { auth_token = t }) (pure true) (λ t p h. h) (λ t p. refl)
                (record { run = λ p h b i up. h.0.0 }))).run
            p h)
    ];
  }

  domain-Triple :
      (rest : Exec Properties Bool)
      → Triple Named rest (Unless Ready)
      → Triple Named (read_domain J root rest) (Unless Ready)
  unfolding read_domain
  domain-Triple rest t =
      sequence Named (member J root (codes "domain") []) _ (λ _. Named) (Unless Ready)
        (member-keeps J Named root (codes "domain") [])
        (λ text. elim (Bool-cases (is_empty text)) [
          | inl e ↦ record { run = λ p h. rw e (t.run p h) }
          | inr e ↦ record {
            run = λ p h. rw e (t.run (record p { domain = text }) ((h.0.0, e), h.1));
          }
        ])

  pub read_properties-Triple : Triple Bare (read_properties J root) (Unless Ready)
  unfolding read_properties
  read_properties-Triple =
      entry-Triple Bare Ready (λ p. p.org_id) (codes "Organization-ID")
        (λ t p. record p { org_id = t }) _ (λ t p h. h) (λ t p. refl)
        (domain-Triple _ (
          entry-Triple Named Ready (λ p. p.device_type) (codes "Device-Type")
            (λ t p. record p { device_type = t }) _ (λ t p h. h) (λ t p. refl)
            (entry-Triple Typed Ready (λ p. p.device_id) (codes "Device-ID")
              (λ t p. record p { device_id = t }) _ (λ t p h. h) (λ t p. refl) credentials-Triple)))

Ready-can_initialize : (p : Properties) → Ready p → can_initialize p ≡ is_quickstart p.org_id
unfolding can_initialize is_empty
Ready-can_initialize p h =
    let bare : is_empty p.trust_store ≡ true = ap is_empty h.0.0.0.0 in
    rw (h.0.0.1, h.0.0.0.1, h.0.1, h.1, bare) (ground arith)

-- A configuration of these samples that is read with success, into properties with a domain and
-- without a trust store, makes a device client that passes the tests of InitializeMqttClient exactly
-- where the organization is "quickstart".
pub initialize_properties-can_initialize :
    (J : JsonLib) (file : Option Text) (p q : Properties)
    → p.trust_store ≡ []
    → is_empty p.domain ≡ false
    → initialize_properties J file p ≡ (ok true, q)
    → can_initialize q ≡ is_quickstart q.org_id
unfolding initialize_properties
initialize_properties-can_initialize J file p q t d e =
    rw e at (Ready-can_initialize (initialize_properties J file p).1 (read file (ap (λ r. r.0) e)))
  where
    parsed :
        (r : Option (JsonLib.Value J))
        → (elim r as (λ _. Exec Properties Bool) [
          | none ↦ pure false
          | some root ↦ read_properties J root
        ]
            p).0
          ≡ ok true
        → Ready
            (elim r as (λ _. Exec Properties Bool) [
              | none ↦ pure false
              | some root ↦ read_properties J root
            ]
              p).1
    parsed none i = absurd (ground arith)
    parsed (some root) i = (read_properties-Triple J root).run p (t, d) true i refl

    read :
        (file : Option Text)
        → (initialize_properties J file p).0 ≡ ok true
        → Ready (initialize_properties J file p).1
    read none i = (read_properties-Triple J J.null).run p (t, d) true i refl
    read (some text) i = parsed (J.parse text) i
