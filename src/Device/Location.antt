-- ===== src/Device/Location.antt =====
-- IOTP_DeviceLocation of src/IOTP_Device.cpp. `clock` is what time(&t) stores and `format_time` the
-- text of gmtime and strftime with "%FT%TZ", both of the C library, for a time that gmtime can
-- convert.
pub mod JsonCopy
use ibmiotf_cpp.Base.{
  ℤ, Option, none, some, null_pointer, Result, ok, err, ◌>>=◌, buffer_overflow, if◌then◌else◌, [],
  length, leb, ◌∷◌, ◌==◌,
}
use ibmiotf_cpp.Json.{JsonLib}
use ibmiotf_cpp.Text.{Text, codes, is_empty}

-- What strcpy and strcmp read of the bytes: those before the first NUL.
unfoldable pub c_string : Text → Text
c_string [] = []
c_string (a ∷ x) = if a == 0 then [] else a ∷ c_string x

module _ (J : JsonLib) where
  open J use {Value, Double}

  pub record DeviceLocation : Type 0 where
    pub latitude : Double
    pub longitude : Double
    pub elevation : Double
    pub accuracy : Double
    pub measured_date_time : ℤ
    pub json : Value

module _ (J : JsonLib) (format_time : ℤ → Text) where
  open J use {Value, Double, zero_double, null, string, double, get, set, as_string, as_double}

  -- setJsonValue
  unfoldable pub set_json_value : DeviceLocation J → DeviceLocation J
  set_json_value l = record l {
    json =
        set
          (set
            (set
              (set (set l.json (codes "latitude") (double l.latitude)) (codes "longitude")
                (double l.longitude))
              (codes "elevation") (double l.elevation))
            (codes "accuracy") (double l.accuracy))
          (codes "measuredDateTime") (string (format_time l.measured_date_time));
  }

  -- the constructor from coordinates and an accuracy
  unfoldable pub new_location : ℤ → Double → Double → Double → Double → DeviceLocation J
  unfolding set_json_value
  new_location clock latitude longitude elevation accuracy = set_json_value (record {
    latitude = latitude;
    longitude = longitude;
    elevation = elevation;
    accuracy = accuracy;
    measured_date_time = clock;
    json = null;
  })

  -- the constructor from coordinates
  unfoldable pub new_coordinates : ℤ → Double → Double → Double → DeviceLocation J
  unfolding new_location
  new_coordinates clock latitude longitude elevation =
      new_location clock latitude longitude elevation zero_double

  -- setLocation
  unfoldable pub set_location : ℤ → Double → Double → Double → DeviceLocation J → DeviceLocation J
  unfolding set_json_value
  set_location clock latitude longitude elevation l = set_json_value (record l {
    latitude = latitude;
    longitude = longitude;
    elevation = elevation;
    measured_date_time = clock;
  })

  unfoldable pub set_latitude : ℤ → Double → DeviceLocation J → DeviceLocation J
  unfolding set_location
  set_latitude clock latitude l = set_location clock latitude l.longitude l.elevation l

  unfoldable pub set_longitude : ℤ → Double → DeviceLocation J → DeviceLocation J
  unfolding set_location
  set_longitude clock longitude l = set_location clock l.latitude longitude l.elevation l

  unfoldable pub set_elevation : ℤ → Double → DeviceLocation J → DeviceLocation J
  unfolding set_location
  set_elevation clock elevation l = set_location clock l.latitude l.longitude elevation l

  -- value.get(key, 0.0).asDouble()
  unfoldable pub get_double : Value → Text → Result Double
  get_double value key = get value key (double zero_double) >>= as_double

  -- The time of the constructor from a Json::Value. strcpy fills a buffer of 21 bytes. strptime
  -- writes to the result of gmtime(&measuredDateTime), never to measuredDateTime, which keeps what
  -- its memory had: `memory` is that value, or `none` where gmtime gives a null pointer for it.
  unfoldable pub read_time : Option ℤ → ℤ → Text → Result ℤ
  read_time memory clock text =
      let buffer = c_string text in
      if leb 21 (length buffer)
      then err buffer_overflow
      else if is_empty buffer
      then ok clock
      else elim memory [ none ↦ err null_pointer | some t ↦ ok t ]

  -- the constructor from a Json::Value
  unfoldable pub location_from_json : Option ℤ → ℤ → Value → Result (DeviceLocation J)
  unfolding get_double set_json_value read_time
  location_from_json memory clock value = do
    latitude ← get_double value (codes "latitude")
    longitude ← get_double value (codes "longitude")
    elevation ← get_double value (codes "elevation")
    accuracy ← get_double value (codes "accuracy")
    time_text ← (do v ← get value (codes "measuredDateTime") (string []); as_string v)
    time ← read_time memory clock time_text
    ok (
        set_json_value (record {
          latitude = latitude;
          longitude = longitude;
          elevation = elevation;
          accuracy = accuracy;
          measured_date_time = time;
          json = null;
        }))
