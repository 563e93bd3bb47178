-- ===== src/Device/Info.antt =====
-- IOTP_DeviceInfo of src/IOTP_Device.cpp.
pub mod RoundTrip
use ibmiotf_cpp.Base.{Option, none, some, Result, ok, ◌>>=◌, if◌then◌else◌, []}
use ibmiotf_cpp.Json.{JsonLib}
use ibmiotf_cpp.Text.{Text, codes, is_empty}

-- (p == NULL) ? "" : p
unfoldable pub or_empty : Option Text → Text
or_empty none = []
or_empty (some t) = t

pub record InfoFields : Type 0 where
  pub serial_number : Text
  pub manufacturer : Text
  pub model : Text
  pub device_class : Text
  pub description : Text
  pub fw_version : Text
  pub hw_version : Text
  pub descriptive_location : Text

module _ (J : JsonLib) where
  open J use {Value, null, string, get, set, as_string}

  -- if (!text.empty()) json[key] = text;
  unfoldable pub put_text : Value → Text → Text → Value
  put_text json key text = if is_empty text then json else set json key (string text)

  -- value.get(key, "").asString()
  unfoldable pub get_text : Value → Text → Result Text
  get_text value key = get value key (string []) >>= as_string

  pub record DeviceInfo : Type 0 where
    pub fields : InfoFields
    pub open fields use *
    pub json : Value

  -- setJsonValue
  unfoldable pub info_json : InfoFields → Value → Value
  unfolding put_text
  info_json i json =
      let json = put_text json (codes "serialNumber") i.serial_number in
      let json = put_text json (codes "manufacturer") i.manufacturer in
      let json = put_text json (codes "model") i.model in
      let json = put_text json (codes "deviceClass") i.device_class in
      let json = put_text json (codes "description") i.description in
      let json = put_text json (codes "fwVersion") i.fw_version in
      let json = put_text json (codes "hwVersion") i.hw_version in
      put_text json (codes "descriptiveLocation") i.descriptive_location

  -- A constructor fills the fields; `json` starts null.
  unfoldable pub new_info : InfoFields → DeviceInfo
  unfolding info_json
  new_info i = record { fields = i; json = info_json i null }

  -- the constructor from C strings
  unfoldable pub info_from_strings :
      Option Text
      → Option Text
      → Option Text
      → Option Text
      → Option Text
      → Option Text
      → Option Text
      → Option Text
      → DeviceInfo
  unfolding new_info or_empty
  info_from_strings serial manufacturer model class description fw hw location = new_info (record {
    serial_number = or_empty serial;
    manufacturer = or_empty manufacturer;
    model = or_empty model;
    device_class = or_empty class;
    description = or_empty description;
    fw_version = or_empty fw;
    hw_version = or_empty hw;
    descriptive_location = or_empty location;
  })

  -- the constructor from a Json::Value
  unfoldable pub info_from_json : Value → Result DeviceInfo
  unfolding new_info get_text
  info_from_json value = do
    serial_number ← get_text value (codes "serialNumber")
    manufacturer ← get_text value (codes "manufacturer")
    model ← get_text value (codes "model")
    device_class ← get_text value (codes "deviceClass")
    description ← get_text value (codes "description")
    fw_version ← get_text value (codes "fwVersion")
    hw_version ← get_text value (codes "hwVersion")
    descriptive_location ← get_text value (codes "descriptiveLocation")
    ok (
        new_info (record {
          serial_number = serial_number;
          manufacturer = manufacturer;
          model = model;
          device_class = device_class;
          description = description;
          fw_version = fw_version;
          hw_version = hw_version;
          descriptive_location = descriptive_location;
        }))

  -- the copy constructor
  unfoldable pub copy_info : DeviceInfo → DeviceInfo
  unfolding new_info
  copy_info src = new_info src.fields
