-- ===== src/Device/Location/JsonCopy.antt =====
-- The JSON copy of a location, and the way back from it.
use ibmiotf_cpp.Base.{
  ℤ, Option, Result, ◌>>=◌, true, ◌≡◌, ◌≤◌, false, none, some, ok, err, null_pointer, leb, arith,
  List, [], ◌∷◌, length,
}
use ibmiotf_cpp.Json.{JsonLib}
use ibmiotf_cpp.Json.Members.{get-set}
use ibmiotf_cpp.Text.{Text, codes, is_empty, text_eq}
use ibmiotf_cpp.Device.Location.{
  DeviceLocation, c_string, set_json_value, new_location, set_location, set_latitude, set_longitude,
  set_elevation, location_from_json, get_double, read_time,
}

module _ (J : JsonLib) (format_time : ℤ → Text) where
  open J use {
    Value, Double, null, string, double, get, set, as_string, has_members, has_members-null,
    has_members-set, get-set_self, get-set_ne,
  }

  -- The JSON copy shows the object's fields.
  pub record InSync (l : DeviceLocation J) : Type 0 where
    pub members : has_members l.json ≡ true
    pub latitude : (d : Value) → get l.json (codes "latitude") d ≡ ok (double l.latitude)
    pub longitude : (d : Value) → get l.json (codes "longitude") d ≡ ok (double l.longitude)
    pub elevation : (d : Value) → get l.json (codes "elevation") d ≡ ok (double l.elevation)
    pub accuracy : (d : Value) → get l.json (codes "accuracy") d ≡ ok (double l.accuracy)
    pub time :
        (d : Value)
        → get l.json (codes "measuredDateTime") d ≡ ok (string (format_time l.measured_date_time))

  set_json_value-InSync :
      (l : DeviceLocation J) → has_members l.json ≡ true → InSync (set_json_value J format_time l)
  unfolding set_json_value text_eq codes
  set_json_value-InSync l h = record {
    members = has_members-set _ _ _;
    latitude = λ d. simp (get-set J, has_members-set, h);
    longitude = λ d. simp (get-set J, has_members-set);
    elevation = λ d. simp (get-set J, has_members-set);
    accuracy = λ d. simp (get-set J, has_members-set);
    time = λ d. simp (get-set J, has_members-set);
  }

  pub new_location-InSync :
      (clock : ℤ) (latitude longitude elevation accuracy : Double)
      → InSync (new_location J format_time clock latitude longitude elevation accuracy)
  unfolding new_location
  new_location-InSync clock latitude longitude elevation accuracy =
      set_json_value-InSync _ has_members-null

  -- A call of a setter, with the clock at the call.
  pub data Edit : Type 0 where
    latitude_edit longitude_edit elevation_edit : ℤ → Double → Edit
    location_edit : ℤ → Double → Double → Double → Edit

  unfoldable pub edit : Edit → DeviceLocation J → DeviceLocation J
  edit (latitude_edit clock x) = set_latitude J format_time clock x
  edit (longitude_edit clock x) = set_longitude J format_time clock x
  edit (elevation_edit clock x) = set_elevation J format_time clock x
  edit (location_edit clock x y z) = set_location J format_time clock x y z

  unfoldable pub edits : List Edit → DeviceLocation J → DeviceLocation J
  unfolding edit
  edits [] l = l
  edits (e ∷ es) l = edits es (edit e l)

  edit-InSync : (e : Edit) (l : DeviceLocation J) → InSync l → InSync (edit e l)
  unfolding edit set_latitude set_longitude set_elevation set_location
  edit-InSync (latitude_edit clock x) l h = set_json_value-InSync _ h.members
  edit-InSync (longitude_edit clock x) l h = set_json_value-InSync _ h.members
  edit-InSync (elevation_edit clock x) l h = set_json_value-InSync _ h.members
  edit-InSync (location_edit clock x y z) l h = set_json_value-InSync _ h.members

  edits-keep_InSync : (es : List Edit) (l : DeviceLocation J) → InSync l → InSync (edits es l)
  unfolding edits
  edits-keep_InSync [] l h = h
  edits-keep_InSync (e ∷ es) l h = edits-keep_InSync es (edit e l) (edit-InSync e l h)

  -- After any calls of the setters on a new location, its JSON copy shows the five fields of the
  -- object, the time included.
  pub edits-InSync :
      (clock : ℤ) (latitude longitude elevation accuracy : Double) (es : List Edit)
      → InSync (edits es (new_location J format_time clock latitude longitude elevation accuracy))
  edits-InSync clock latitude longitude elevation accuracy es =
      edits-keep_InSync es _ (new_location-InSync clock latitude longitude elevation accuracy)

  -- A text that the constructor takes for a time, as those of strftime with "%FT%TZ" are.
  pub record IsTimeText (text : Text) : Type 0 where
    pub no_nul : c_string text ≡ text
    pub is_not_empty : is_empty text ≡ false
    pub fits : length text ≤ 20

  -- What the constructor takes for the time then.
  result_of : Option ℤ → Result ℤ
  result_of none = err null_pointer
  result_of (some t) = ok t

  read_time-IsTimeText :
      (memory : Option ℤ) (clock : ℤ) (text : Text)
      → IsTimeText text
      → read_time J format_time memory clock text ≡ result_of memory
  unfolding read_time result_of
  read_time-IsTimeText memory clock text h =
      let short : leb 21 (length text) ≡ false = ground (arith, h.fits) in
      rw (h.no_nul, short, h.is_not_empty)

  location_from_json_lem :
      (memory : Option ℤ) (clock : ℤ) (l : DeviceLocation J)
      → InSync l
      → IsTimeText (format_time l.measured_date_time)
      → location_from_json J format_time memory clock l.json ≡ (
          result_of memory >>= (λ time.
            ok
              (set_json_value J format_time (record l { measured_date_time = time; json = null }))))
  unfolding location_from_json get_double
  location_from_json_lem memory clock l sync text = rw (
    sync.latitude (double J.zero_double),
    sync.longitude (double J.zero_double),
    sync.elevation (double J.zero_double),
    sync.accuracy (double J.zero_double),
    sync.time (string []),
    J.as_double-double l.latitude,
    J.as_double-double l.longitude,
    J.as_double-double l.elevation,
    J.as_double-double l.accuracy,
    J.as_string-string (format_time l.measured_date_time),
    read_time-IsTimeText memory clock (format_time l.measured_date_time) text,
  )

  -- A location whose JSON copy shows its fields, the time as a text of 1 to 20 bytes without NUL,
  -- does not survive the way through JSON: what is read back has the four coordinates, but instead
  -- of the time the indeterminate value that its memory had; and where gmtime cannot convert that,
  -- the constructor passes a null pointer to strptime.
  pub location_from_json-json :
      (t clock : ℤ) (l : DeviceLocation J)
      → InSync l
      → IsTimeText (format_time l.measured_date_time)
      → (location_from_json J format_time (some t) clock l.json
          ≡ ok (set_json_value J format_time (record l { measured_date_time = t; json = null })))
        × (location_from_json J format_time none clock l.json ≡ err null_pointer)
  unfolding result_of
  location_from_json-json t clock l sync text = (
    location_from_json_lem (some t) clock l sync text,
    location_from_json_lem none clock l sync text,
  )
