-- ===== src/Samples/Configuration.antt =====
-- InitializeProperties of samples/sampleManagedDevice.cpp, samples/sampleQuickstart.cpp and
-- samples/sampleManagedGateway.cpp. A file that cannot be opened is read like the JSON null.
pub mod Unsecured
use ibmiotf_cpp.Base.{Bool, true, false, not, Option, none, some, [], if◌then◌else◌}
use ibmiotf_cpp.Base.Exec.{Exec, pure, gets, modify, ◌>>=◌, ◌>>◌, when}
use ibmiotf_cpp.Json.{JsonLib}
use ibmiotf_cpp.Text.{Text, codes, is_empty}
use ibmiotf_cpp.Properties.{Properties, is_quickstart}
use ibmiotf_cpp.Properties.Config.{member}

module _ (J : JsonLib) where
  open J use {Value, null, parse}

  -- An entry that must not be empty: it is stored, and the rest is read, or 0 is returned.
  unfoldable pub entry :
      Value → Text → (Text → Properties → Properties) → Exec Properties Bool → Exec Properties Bool
  unfolding member
  entry root key setter rest = do
    text ← member J root key []
    if is_empty text then pure false else do modify (setter text); rest

  -- if (domain.size() != 0)
  unfoldable pub read_domain : Value → Exec Properties Bool → Exec Properties Bool
  unfolding member
  read_domain root rest = do
    domain ← member J root (codes "domain") []
    when (not (is_empty domain)) (modify (λ p. record p { domain = domain }))
    rest

  -- if(org.compare("quickstart") != 0)
  unfoldable pub read_credentials : Value → Exec Properties Bool
  unfolding entry
  read_credentials root = do
    org ← gets (λ p. p.org_id)
    if is_quickstart org
        then pure true
        else entry root (codes "Authentication-Method") (λ t p. record p { auth_method = t })
            (entry root (codes "Authentication-Token") (λ t p. record p { auth_token = t })
              (pure true))

  unfoldable pub read_properties : Value → Exec Properties Bool
  unfolding entry read_domain read_credentials
  read_properties root =
      entry root (codes "Organization-ID") (λ t p. record p { org_id = t })
        (read_domain root (
          entry root (codes "Device-Type") (λ t p. record p { device_type = t })
            (entry root (codes "Device-ID") (λ t p. record p { device_id = t })
              (read_credentials root))))

  -- The whole function of the device and of the quickstart sample.
  unfoldable pub initialize_properties : Option Text → Exec Properties Bool
  unfolding read_properties
  initialize_properties none = read_properties null
  initialize_properties (some text) = elim (parse text) [
    | none ↦ pure false
    | some root ↦ read_properties root
  ]

  -- The function of the gateway sample tests six entries before it stores any.
  unfoldable pub tested : Value → Text → (Text → Exec Properties Bool) → Exec Properties Bool
  unfolding member
  tested root key rest = do
    text ← member J root key []
    if is_empty text then pure false else rest text

  unfoldable pub read_gateway_properties : Value → Exec Properties Bool
  unfolding tested
  read_gateway_properties root = tested root (codes "Organization-ID") (λ org.
      tested root (codes "domain") (λ domain. tested root (codes "Device-Type") (λ device_type.
        tested root (codes "Device-ID") (λ device_id.
          tested root (codes "Authentication-Method") (λ username.
            tested root (codes "Authentication-Token") (λ password. do
              modify (λ p. record p {
                org_id = org;
                domain = domain;
                device_type = device_type;
                device_id = device_id;
                auth_method = username;
                auth_token = password;
              })
              pure true))))))

  unfoldable pub initialize_gateway_properties : Option Text → Exec Properties Bool
  unfolding read_gateway_properties
  initialize_gateway_properties none = read_gateway_properties null
  initialize_gateway_properties (some text) = elim (parse text) [
    | none ↦ pure false
    | some root ↦ read_gateway_properties root
  ]
