-- ===== src/DeviceResponse.antt =====
-- src/IOTP_DeviceResponseMessage.h, which no other code of the library uses.
use ibmiotf_cpp.Base.{ℤ, ◌≡◌, Option, ok, Bool-cases, inl, inr}
use ibmiotf_cpp.Json.{JsonLib}
use ibmiotf_cpp.Json.Members.{get-set}
use ibmiotf_cpp.Text.{Text, codes, is_empty, text_eq}
use ibmiotf_cpp.Device.Info.{put_text, or_empty}

module _ (J : JsonLib) where
  open J use {Value, null, int, get, set, has_members, has_members-null, has_members-set}

  pub record ResponseMessage : Type 0 where
    pub rc : ℤ
    pub message : Text
    pub json : Value

  -- setJsonValue
  unfoldable set_json_value : ResponseMessage → ResponseMessage
  unfolding put_text
  set_json_value r = record r {
    json = put_text J (set r.json (codes "rc") (int r.rc)) (codes "message") r.message;
  }

  -- The two constructors, without a message and with one.
  unfoldable new_response : ℤ → Option Text → ResponseMessage
  unfolding set_json_value or_empty
  new_response rc message =
      set_json_value (record { rc = rc; message = or_empty message; json = null })

  -- The JSON of a response shows its code, with a message or without.
  new_response-rc :
      (rc : ℤ) (message : Option Text) (d : Value)
      → get (new_response rc message).json (codes "rc") d ≡ ok (int rc)
  unfolding new_response set_json_value put_text text_eq codes
  new_response-rc rc message d = elim (Bool-cases (is_empty (or_empty message))) [
    | inl e ↦ rw (e, get-set J null (codes "rc") (codes "rc") (int rc) d has_members-null)
    | inr e ↦ rw (
      e,
      get-set J _ (codes "message") (codes "rc") (J.string (or_empty message)) d
          (has_members-set null (codes "rc") (int rc)),
      get-set J null (codes "rc") (codes "rc") (int rc) d has_members-null,
    )
  ]
