-- ===== src/Attribute/Locations.antt =====
-- The locations that the application is handed by src/IOTP_DeviceAttributeHandler.cpp.
use ibmiotf_cpp.Base.{ℤ, ◌≡◌, refl, false, ok, some, []}
use ibmiotf_cpp.Json.{JsonLib}
use ibmiotf_cpp.Text.{Text, codes, text_eq}
use ibmiotf_cpp.Topics.{server_update_topic}
use ibmiotf_cpp.Device.Location.{
  DeviceLocation, new_location, set_location, set_latitude, set_longitude, set_elevation,
  set_json_value, get_double,
}
use ibmiotf_cpp.Device.Location.JsonCopy.{
  InSync, edits, latitude_edit, longitude_edit, elevation_edit, edits-InSync, edit,
}
use ibmiotf_cpp.Attribute.{message_arrived}
use ibmiotf_cpp.Device.Info.{get_text}
use ibmiotf_cpp.Reply.{ActionResponse, ReplyMessage}
use ibmiotf_cpp.Reply.Contents.{IsReply, response_reply-IsReply}
use ibmiotf_cpp.Firmware
use ibmiotf_cpp.Firmware.{FirmwareMethods, FirmwareHandler}
use ibmiotf_cpp.Firmware.Info.{set_version, set_name, set_uri, set_verifier}
use ibmiotf_cpp.Base.{◌∷◌}

module _ (J : JsonLib) where
  open J use {Value, Double, zero_double, null, get, get_index, as_string}

  -- The first field of an update request, with its name.
  pub record FirstField (payload : Value) (name : Text) : Type 0 where
    pub d : Value
    pub fields : Value
    pub first_field : Value
    pub field : Value
    pub is_d : get payload (codes "d") null ≡ ok d
    pub is_fields : get d (codes "fields") null ≡ ok fields
    pub is_first : get_index fields 0 null ≡ ok first_field
    pub is_field : get first_field (codes "field") null ≡ ok field
    pub is_name : as_string field ≡ ok name

module _ (J : JsonLib) (format_time : ℤ → Text) where
  open J use {Value, Double, zero_double, null, get, get_index, as_string}

  abbrev pub origin : ℤ → DeviceLocation J
  origin clock = new_location J format_time clock zero_double zero_double zero_double zero_double

  -- What the application is handed: the coordinates of the request, at the time of its arrival, in the
  -- object and in its JSON copy.
  pub record Located (clock : ℤ) (latitude longitude elevation : Double) (l : DeviceLocation J)
      : Type 0 where
    pub is_latitude : l.latitude ≡ latitude
    pub is_longitude : l.longitude ≡ longitude
    pub is_elevation : l.elevation ≡ elevation
    pub is_accuracy : l.accuracy ≡ zero_double
    pub is_time : l.measured_date_time ≡ clock
    pub is_shown : InSync J format_time l

  -- A location request reaches the application: where its first field is "location", and the coordinates of
  -- its value are numbers, UpdateLocation is called with an object that has these coordinates, the accuracy 0 and
  -- the time of the arrival, and whose JSON copy shows the same.
  pub message_arrived-location :
      (clock : ℤ) (payload value : Value) (latitude longitude elevation : Double)
      (f : FirstField J payload (codes "location"))
      → get f.first_field (codes "value") null ≡ ok value
      → get_double J format_time value (codes "latitude") ≡ ok latitude
      → get_double J format_time value (codes "longitude") ≡ ok longitude
      → get_double J format_time value (codes "elevation") ≡ ok elevation
      → (l : DeviceLocation J) × Located clock latitude longitude elevation l
        × (message_arrived J format_time clock server_update_topic payload ≡ ok l)
  unfolding message_arrived set_location set_latitude set_longitude set_elevation set_json_value
      new_location codes text_eq edits edit
  message_arrived-location clock payload value latitude longitude elevation f v x y z = (
    edits J format_time
        (latitude_edit clock latitude
          ∷ longitude_edit clock longitude
          ∷ elevation_edit clock elevation
          ∷ [])
        (origin clock),
    record {
      is_latitude = refl;
      is_longitude = refl;
      is_elevation = refl;
      is_accuracy = refl;
      is_time = refl;
      is_shown = edits-InSync J format_time clock zero_double zero_double zero_double zero_double (
          latitude_edit clock latitude
          ∷ longitude_edit clock longitude
          ∷ elevation_edit clock elevation
          ∷ []);
    },
    rw (f.is_d, f.is_fields, f.is_first, f.is_field, f.is_name, v, x, y, z),
  )

  pub message_arrived-other_field :
      (clock : ℤ) (payload : Value) (name : Text)
      → FirstField J payload name
      → text_eq name (codes "location") ≡ false
      → message_arrived J format_time clock server_update_topic payload ≡ ok (origin clock)
  unfolding message_arrived codes text_eq
  message_arrived-other_field clock payload name f other =
      rw (f.is_d, f.is_fields, f.is_first, f.is_field, f.is_name, other)

  -- A firmware request moves the device, too: an update request whose first field is "mgmt.firmware", on the topic
  -- that manage() subscribes for both handlers. The firmware handler hands the application its info with the version,
  -- name, uri and verifier of the request, and answers with the application's response and the id of the request;
  -- the attribute handler hands the application a location at the origin.
  pub firmware_update-moves :
      (clock : ℤ) (payload value : Value) (version name uri verifier id : Text)
      (app : FirmwareMethods J) (h : FirmwareHandler J) (rsp : ActionResponse)
      (f : FirstField J payload (codes "mgmt.firmware"))
      → get f.first_field (codes "value") null ≡ ok value
      → get_text J value (codes "version") ≡ ok version
      → get_text J value (codes "name") ≡ ok name
      → get_text J value (codes "uri") ≡ ok uri
      → get_text J value (codes "verifier") ≡ ok verifier
      → app.verify
          (record h.fwinfo { version = version; name = name; uri = uri; verifier = verifier })
        ≡ some rsp
      → get_text J payload (codes "reqId") ≡ ok id
      → (reply : ReplyMessage J) × IsReply J rsp id reply
        × (Firmware.message_arrived J format_time app server_update_topic payload h
            ≡ (ok (some reply), h))
        × (message_arrived J format_time clock server_update_topic payload ≡ ok (origin clock))
  unfolding Firmware.message_arrived Firmware.read_firmware set_version set_name set_uri
      set_verifier codes text_eq
  firmware_update-moves clock payload value version name uri verifier id app h rsp f v a b c d
        accepted e =
      let (reply, made, is) = response_reply-IsReply J rsp payload id e in
      (
        reply,
        is,
        rw (f.is_d, f.is_fields, f.is_first, f.is_field, f.is_name, v, a, b, c, d, accepted, made),
        message_arrived-other_field clock payload (codes "mgmt.firmware") f refl,
      )
