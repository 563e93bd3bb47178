-- ===== src/Device/Info/RoundTrip.antt =====
-- The JSON of a device info holds exactly what the info holds.
use ibmiotf_cpp.Base.{
  Bool, ◌≡◌, refl, ◌∙◌, ap, ok, true, false, inl, inr, Bool-cases, arith, [], ◌∷◌, ◌++◌, List, not,
  ◌&&◌, take, ℕ,
}
use ibmiotf_cpp.Json.{JsonLib}
use ibmiotf_cpp.Text.{Text, codes, is_empty, text_eq}
use ibmiotf_cpp.Device.Info.{InfoFields, put_text, get_text, new_info, info_json, info_from_json}

is_empty-eq : (t : Text) → is_empty t ≡ true → t ≡ []
unfolding is_empty
is_empty-eq [] h = refl
is_empty-eq (a ∷ t) h = cc

module _ (J : JsonLib) where
  open J use {
    Value, null, string, get, set, as_string, has_members, has_members-null, has_members-set,
    get-null, get-set_self, get-set_ne, as_string-string,
  }

  pub has_members-put_text :
      (v : Value) (k t : Text) → has_members v ≡ true → has_members (put_text J v k t) ≡ true
  unfolding put_text
  has_members-put_text v k t h = ground (arith, has_members-set v k (string t))

  pub get_text-put_text_ne :
      (v : Value) (k j t : Text)
      → has_members v ≡ true
      → text_eq k j ≡ false
      → get_text J (put_text J v k t) j ≡ get_text J v j
  unfolding put_text get_text
  get_text-put_text_ne v k j t h ne = elim (Bool-cases (is_empty t)) [
    | inl e ↦ rw e
    | inr e ↦ rw (e, get-set_ne v k j (string t) (string []) h ne)
  ]

  pub get_text-put_text_self :
      (v : Value) (k t : Text)
      → has_members v ≡ true
      → get_text J v k ≡ ok []
      → get_text J (put_text J v k t) k ≡ ok t
  unfolding put_text get_text
  get_text-put_text_self v k t h absent = elim (Bool-cases (is_empty t)) [
    | inl e ↦ rw e (absent ∙ ap ok (rw (is_empty-eq t e)))
    | inr e ↦ rw (e, get-set_self v k (string t) (string []) h) (as_string-string t)
  ]

  pub get_text-null : (k : Text) → get_text J null k ≡ ok []
  unfolding get_text
  get_text-null k = rw (get-null k (string [])) (as_string-string [])

  -- The fields, each under its key, written in turn.
  put_all : List (Text × Text) → Value → Value
  put_all [] v = v
  put_all ((k, t) ∷ l) v = put_all l (put_text J v k t)

  other_keys : Text → List (Text × Text) → Bool
  other_keys k [] = true
  other_keys k ((j, t) ∷ l) = not (text_eq j k) && other_keys k l

  other_keys-cons :
      (k j t : Text) (l : List (Text × Text))
      → other_keys k ((j, t) ∷ l) ≡ true
      → (text_eq j k ≡ false) × (other_keys k l ≡ true)
  unfolding other_keys
  other_keys-cons k j t l h = ground arith

  get_text-put_all_ne :
      (l : List (Text × Text)) (v : Value) (k : Text)
      → has_members v ≡ true
      → other_keys k l ≡ true
      → get_text J (put_all l v) k ≡ get_text J v k
  unfolding put_all
  get_text-put_all_ne [] v k h o = refl
  get_text-put_all_ne ((j, t) ∷ l) v k h o =
      let o' = other_keys-cons k j t l o in
      get_text-put_all_ne l (put_text J v j t) k (has_members-put_text v j t h) o'.1
      ∙ get_text-put_text_ne v j k t h o'.0

  get_text-put_all :
      (pre post : List (Text × Text)) (v : Value) (k t : Text)
      → has_members v ≡ true
      → get_text J v k ≡ ok []
      → other_keys k pre ≡ true
      → other_keys k post ≡ true
      → get_text J (put_all (pre ++ ((k, t) ∷ post)) v) k ≡ ok t
  unfolding put_all
  get_text-put_all [] post v k t h absent o p =
      get_text-put_all_ne post (put_text J v k t) k (has_members-put_text v k t h) p
      ∙ get_text-put_text_self v k t h absent
  get_text-put_all ((j, u) ∷ pre) post v k t h absent o p =
      let o' = other_keys-cons k j u pre o in
      get_text-put_all pre post (put_text J v j u) k t (has_members-put_text v j u h)
        (get_text-put_text_ne v j k u h o'.0 ∙ absent) o'.1 p

  module _ (i : InfoFields) where
    entries : List (Text × Text)
    entries =
        (codes "serialNumber", i.serial_number)
        ∷ (codes "manufacturer", i.manufacturer)
        ∷ (codes "model", i.model)
        ∷ (codes "deviceClass", i.device_class)
        ∷ (codes "description", i.description)
        ∷ (codes "fwVersion", i.fw_version)
        ∷ (codes "hwVersion", i.hw_version)
        ∷ (codes "descriptiveLocation", i.descriptive_location)
        ∷ []

    info_json-entries : info_json J i null ≡ put_all entries null
    unfolding info_json put_all entries
    info_json-entries = refl

    field :
        (n : ℕ) (k t : Text) (post : List (Text × Text))
        → entries ≡ take n entries ++ ((k, t) ∷ post)
        → other_keys k (take n entries) ≡ true
        → other_keys k post ≡ true
        → get_text J (info_json J i null) k ≡ ok t
    field n k t post e o p =
        rw (info_json-entries, e)
          (get_text-put_all (take n entries) post null k t has_members-null (get_text-null k) o p)

    serial_number_field :
        get_text J (info_json J i null) (codes "serialNumber") ≡ ok i.serial_number
    unfolding entries other_keys text_eq codes
    serial_number_field = field 0 _ _ _ refl refl refl

    manufacturer_field : get_text J (info_json J i null) (codes "manufacturer") ≡ ok i.manufacturer
    unfolding entries other_keys text_eq codes
    manufacturer_field = field 1 _ _ _ refl refl refl

    model_field : get_text J (info_json J i null) (codes "model") ≡ ok i.model
    unfolding entries other_keys text_eq codes
    model_field = field 2 _ _ _ refl refl refl

    device_class_field : get_text J (info_json J i null) (codes "deviceClass") ≡ ok i.device_class
    unfolding entries other_keys text_eq codes
    device_class_field = field 3 _ _ _ refl refl refl

    description_field : get_text J (info_json J i null) (codes "description") ≡ ok i.description
    unfolding entries other_keys text_eq codes
    description_field = field 4 _ _ _ refl refl refl

    fw_version_field : get_text J (info_json J i null) (codes "fwVersion") ≡ ok i.fw_version
    unfolding entries other_keys text_eq codes
    fw_version_field = field 5 _ _ _ refl refl refl

    hw_version_field : get_text J (info_json J i null) (codes "hwVersion") ≡ ok i.hw_version
    unfolding entries other_keys text_eq codes
    hw_version_field = field 6 _ _ _ refl refl refl

    location_field :
        get_text J (info_json J i null) (codes "descriptiveLocation") ≡ ok i.descriptive_location
    unfolding entries other_keys text_eq codes
    location_field = field 7 _ _ _ refl refl refl

  -- Reading back the JSON of a device info gives the same info: an empty field is left out of the
  -- JSON, and a missing one is read as empty.
  pub info_from_json-json :
      (i : InfoFields) → info_from_json J (new_info J i).json ≡ ok (new_info J i)
  unfolding info_from_json new_info
  info_from_json-json i = rw (
    serial_number_field i,
    manufacturer_field i,
    model_field i,
    device_class_field i,
    description_field i,
    fw_version_field i,
    hw_version_field i,
    location_field i,
  )
