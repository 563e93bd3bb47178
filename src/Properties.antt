-- ===== src/Properties.antt =====
-- src/Properties.h
pub mod Config
use ibmiotf_cpp.Base.{Bool, true, false, [], ℤ, pos}
use ibmiotf_cpp.Text.{Text, codes, text_eq}

pub record Properties : Type 0 where
  pub org_id : Text
  pub domain : Text
  pub device_type : Text
  pub device_id : Text
  pub auth_method : Text
  pub auth_token : Text
  pub trust_store : Text
  pub key_store : Text
  pub private_key : Text
  pub key_pass_phrase : Text
  pub port : ℤ
  pub use_certs : Bool

abbrev pub default_properties : Properties
default_properties = record {
  org_id = [];
  domain = codes "internetofthings.ibmcloud.com";
  device_type = [];
  device_id = [];
  auth_method = [];
  auth_token = [];
  trust_store = [];
  key_store = [];
  private_key = [];
  key_pass_phrase = [];
  port = pos 8883;
  use_certs = false;
}

-- getorgId().compare("quickstart") == 0
unfoldable pub is_quickstart : Text → Bool
is_quickstart org = text_eq org (codes "quickstart")
