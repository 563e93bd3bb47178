-- ===== src/Firmware/Info.antt =====
-- IOTP_FirmwareInfo of src/IOTP_DeviceFirmwareHandler.cpp. `format_time` is the text of gmtime and
-- strftime with "%FT%TZ" of the C library.
pub mod Shown
pub mod JsonCopy
use ibmiotf_cpp.Base.{ℤ, pos, negsuc, int_eq, Option, if◌then◌else◌}
use ibmiotf_cpp.Json.{JsonLib}
use ibmiotf_cpp.Text.{Text, codes}
use ibmiotf_cpp.Device.Info.{or_empty, put_text}

abbrev pub state_idle : ℤ
state_idle = pos 0

abbrev pub state_downloading : ℤ
state_downloading = pos 1

abbrev pub state_downloaded : ℤ
state_downloaded = pos 2

abbrev pub status_success : ℤ
status_success = pos 0

abbrev pub status_in_progress : ℤ
status_in_progress = pos 1

module _ (J : JsonLib) where
  pub record FirmwareInfo : Type 0 where
    pub name : Text
    pub version : Text
    pub uri : Text
    pub verifier : Text
    pub state : ℤ
    pub update_status : ℤ
    pub updated_date_time : ℤ
    pub json : JsonLib.Value J

module _ (J : JsonLib) (format_time : ℤ → Text) where
  open J use {Value, null, string, int, set}

  -- setJsonValue: what has become empty or unset stays in the JSON as it was
  unfoldable pub set_json_value : FirmwareInfo J → FirmwareInfo J
  unfolding put_text
  set_json_value p =
      let json = put_text J p.json (codes "name") p.name in
      let json = put_text J json (codes "version") p.version in
      let json = put_text J json (codes "url") p.uri in
      let json = put_text J json (codes "verifier") p.verifier in
      let json = set json (codes "state") (int p.state) in
      let json =
        if int_eq p.update_status (negsuc 0)
        then json
        else set json (codes "updateStatus") (int p.update_status) in
      let json =
        if int_eq p.updated_date_time (negsuc 0)
        then json
        else set json (codes "updatedDateTime") (string (format_time p.updated_date_time)) in
      record p { json = json }

  -- the constructor with seven arguments
  unfoldable pub new_full_info :
      Option Text → Option Text → Option Text → Option Text → ℤ → ℤ → ℤ → FirmwareInfo J
  unfolding set_json_value or_empty
  new_full_info name version uri verifier state update_status updated_date_time =
      set_json_value (record {
        name = or_empty name;
        version = or_empty version;
        uri = or_empty uri;
        verifier = or_empty verifier;
        state = state;
        update_status = update_status;
        updated_date_time = updated_date_time;
        json = null;
      })

  -- the constructor with four arguments
  unfoldable pub new_info : Option Text → Option Text → Option Text → Option Text → FirmwareInfo J
  unfolding new_full_info
  new_info name version uri verifier =
      new_full_info name version uri verifier state_idle (negsuc 0) (negsuc 0)

  -- These four leave the JSON alone.
  unfoldable pub set_name : Text → FirmwareInfo J → FirmwareInfo J
  set_name name p = record p { name = name }

  unfoldable pub set_version : Text → FirmwareInfo J → FirmwareInfo J
  set_version version p = record p { version = version }

  unfoldable pub set_uri : Text → FirmwareInfo J → FirmwareInfo J
  set_uri uri p = record p { uri = uri }

  unfoldable pub set_verifier : Text → FirmwareInfo J → FirmwareInfo J
  set_verifier verifier p = record p { verifier = verifier }

  unfoldable pub set_state : ℤ → FirmwareInfo J → FirmwareInfo J
  unfolding set_json_value
  set_state state p = set_json_value (record p { state = state })

  unfoldable pub set_update_status : ℤ → FirmwareInfo J → FirmwareInfo J
  unfolding set_json_value
  set_update_status update_status p = set_json_value (record p { update_status = update_status })

  unfoldable pub set_updated_date_time : ℤ → FirmwareInfo J → FirmwareInfo J
  unfolding set_json_value
  set_updated_date_time time p = set_json_value (record p { updated_date_time = time })
