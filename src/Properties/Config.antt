-- ===== src/Properties/Config.antt =====
-- IOTP_Client::InitializePropertiesFromFile of src/IOTP_Client.cpp.
pub mod Steps
pub mod Success
use ibmiotf_cpp.Base.{Bool, true, false, Option, none, some, if◌then◌else◌, [], pos, not}
use ibmiotf_cpp.Base.Exec.{Exec, pure, lift, gets, modify, ◌>>=◌, ◌>>◌, when}
use ibmiotf_cpp.Json.{JsonLib}
use ibmiotf_cpp.Text.{Text, codes, text_eq, is_empty}
use ibmiotf_cpp.Text.Decimal.{stoi}
use ibmiotf_cpp.Properties.{Properties, is_quickstart}

module _ (J : JsonLib) where
  open J use {Value, string, get, as_string, parse}

  -- root.get(key, fallback).asString()
  unfoldable pub member : Value → Text → Text → Exec Properties Text
  member root key fallback = do v ← lift (get root key (string fallback)); lift (as_string v)

  -- The block of one required entry: an empty text is an error, any other is stored. `rc` is the
  -- value of the function's flag before the block, the result its value behind it.
  unfoldable pub store : (Text → Properties → Properties) → Text → Bool → Exec Properties Bool
  store setter text rc = if is_empty text then pure false else (do modify (setter text); pure rc)

  unfoldable pub required :
      Value → Text → (Text → Properties → Properties) → Bool → Exec Properties Bool
  unfolding member store
  required root key setter rc = do text ← member root key []; store setter text rc

  unfoldable pub read_domain : Value → Exec Properties (Unit {0})
  unfolding member
  read_domain root = do
    domain ← member root (codes "Domain") []
    when (not (is_empty domain)) (modify (λ p. record p { domain = domain }))

  unfoldable pub read_port : Value → Bool → Exec Properties Bool
  unfolding member
  read_port root rc = do
    custom_port ← member root (codes "Port") (codes "8883")
    if is_empty custom_port then pure false else do
      org ← gets (λ p. p.org_id)
      if is_quickstart org
          then (do modify (λ p. record p { port = pos 1883 }); pure rc)
          else do port ← lift (stoi custom_port); modify (λ p. record p { port = port }); pure rc

  unfoldable pub read_use_certs : Value → Bool → Exec Properties Bool
  unfolding member
  read_use_certs root rc = do
    use_certs ← member root (codes "useClientCertificates") (codes "false")
    if is_empty use_certs
        then pure false
        else do modify (λ p. record p { use_certs = text_eq use_certs (codes "true") }); pure rc

  -- if (prop.getuseCerts()) { … }
  unfoldable pub read_certificates : Value → Bool → Exec Properties Bool
  unfolding member required
  read_certificates root rc = do
    use_certs ← gets (λ p. p.use_certs)
    if not use_certs then pure rc else do
      rc ← required root (codes "clientCertPath") (λ t p. record p { key_store = t }) rc
      rc ← required root (codes "clientKeyPath") (λ t p. record p { private_key = t }) rc
      pass_phrase ← member root (codes "clientKeyPassword") []
      modify (λ p. record p { key_pass_phrase = pass_phrase })
      pure rc

  -- if (org.compare("quickstart") != 0) { … }
  unfoldable pub read_credentials : Value → Bool → Exec Properties Bool
  unfolding required read_use_certs read_certificates
  read_credentials root rc = do
    rc ← required root (codes "Authentication-Method") (λ t p. record p { auth_method = t }) rc
    rc ← required root (codes "Authentication-Token") (λ t p. record p { auth_token = t }) rc
    rc ← required root (codes "clientTrustStorePath") (λ t p. record p { trust_store = t }) rc
    rc ← read_use_certs root rc
    read_certificates root rc

  unfoldable pub read_configuration : Value → Exec Properties Bool
  unfolding member store required read_domain read_port read_credentials
  read_configuration root = do
    org ← member root (codes "Organization-ID") []
    rc ← store (λ t p. record p { org_id = t }) org true
    read_domain root
    rc ← required root (codes "Device-Type") (λ t p. record p { device_type = t }) rc
    rc ← required root (codes "Device-ID") (λ t p. record p { device_id = t }) rc
    rc ← read_port root rc
    if is_quickstart org then pure rc else read_credentials root rc

  -- The whole function. `file` is the text of the file, `none` if it cannot be opened.
  unfoldable pub initialize_from_file : Option Text → Exec Properties Bool
  unfolding read_configuration
  initialize_from_file none = pure false
  initialize_from_file (some text) = elim (parse text) [
    | none ↦ pure false
    | some root ↦ read_configuration root
  ]
