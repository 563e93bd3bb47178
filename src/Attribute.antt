-- ===== src/Attribute.antt =====
-- src/IOTP_DeviceAttributeHandler.h and .cpp
pub mod Locations
use ibmiotf_cpp.Base.{not, ℤ, Result, ok, err, ◌>>=◌, no_return, Option, if◌then◌else◌}
use ibmiotf_cpp.Json.{JsonLib}
use ibmiotf_cpp.Text.{Text, codes, text_eq}
use ibmiotf_cpp.Topics.{server_update_topic}
use ibmiotf_cpp.Device.Location.{
  DeviceLocation, new_location, set_latitude, set_longitude, set_elevation, get_double,
}
use ibmiotf_cpp.Reply.{ReplyMessage}

module _ (J : JsonLib) (format_time : ℤ → Text) where
  open J use {Value, zero_double, null, get, get_index, as_string}

  -- The location of an update request, and a new location at the origin if it has none.
  unfoldable pub read_location : ℤ → Value → Result (DeviceLocation J)
  unfolding new_location set_latitude set_longitude set_elevation get_double
  read_location clock payload = do
    let p = new_location J format_time clock zero_double zero_double zero_double zero_double
    d ← get payload (codes "d") null
    fields ← get d (codes "fields") null
    first_field ← get_index fields 0 null
    field ← get first_field (codes "field") null
    field_name ← as_string field
    if not (text_eq field_name (codes "location")) then ok p else do
      value ← get first_field (codes "value") null
      latitude ← get_double J format_time value (codes "latitude")
      longitude ← get_double J format_time value (codes "longitude")
      elevation ← get_double J format_time value (codes "elevation")
      ok (
          set_elevation J format_time clock elevation (
            set_longitude J format_time clock longitude
              (set_latitude J format_time clock latitude p)))

  -- message_arrived with a parsed payload: the location that UpdateLocation is called with. On
  -- another topic the function ends without a return.
  unfoldable pub message_arrived : ℤ → Text → Value → Result (DeviceLocation J)
  unfolding read_location
  message_arrived clock topic payload =
      if text_eq topic server_update_topic then read_location clock payload else err no_return

  -- message_arrived with a message: an empty body that should return a pointer
  unfoldable pub raw_message_arrived : Text → Text → Result (Option (ReplyMessage J))
  raw_message_arrived topic text = err no_return
