-- ===== src/Firmware/Info/Shown.antt =====
-- What the JSON copy of a firmware info of src/IOTP_DeviceFirmwareHandler.cpp shows.
use ibmiotf_cpp.Base.{
  ℤ, negsuc, int_eq, ◌≡◌, refl, ◌∙◌, true, false, ok, [], Bool-cases, inl, inr, if◌then◌else◌,
}
use ibmiotf_cpp.Json.{JsonLib}
use ibmiotf_cpp.Json.Members.{get-set}
use ibmiotf_cpp.Text.{Text, codes, is_empty, text_eq}
use ibmiotf_cpp.Device.Info.{put_text, get_text}
use ibmiotf_cpp.Firmware.Info.{FirmwareInfo, set_json_value}

module _ (J : JsonLib) (format_time : ℤ → Text) where
  open J use {
    Value, null, string, int, get, set, as_string, has_members, has_members-null, has_members-set,
    get-null, as_string-string, get-set_self,
  }

  -- The JSON can be written, and its time can be read.
  pub record Readable (json : Value) : Type 0 where
    pub members : has_members json ≡ true
    pub time : Text
    pub is_time : get_text J json (codes "updatedDateTime") ≡ ok time

  pub Readable-null : Readable null
  unfolding get_text
  Readable-null = record {
    members = has_members-null;
    time = [];
    is_time = rw (get-null, as_string-string);
  }

  Readable-set :
      (json : Value) (k : Text) (x : Value)
      → text_eq k (codes "updatedDateTime") ≡ false
      → Readable json
      → Readable (set json k x)
  unfolding get_text
  Readable-set json k x e r = record {
    members = has_members-set _ _ _;
    time = r.time;
    is_time = rw (get-set J json k (codes "updatedDateTime") x (string []) r.members, e) r.is_time;
  }

  Readable-put_text :
      (json : Value) (k t : Text)
      → text_eq k (codes "updatedDateTime") ≡ false
      → Readable json
      → Readable (put_text J json k t)
  unfolding put_text
  Readable-put_text json k t e r = elim (Bool-cases (is_empty t)) [
    | inl h ↦ rw h r
    | inr h ↦ rw h (Readable-set json k (string t) e r)
  ]

  Readable-set_time :
      (json : Value) (t : Text)
      → Readable json
      → Readable (set json (codes "updatedDateTime") (string t))
  unfolding get_text text_eq codes
  Readable-set_time json t r = record {
    members = has_members-set _ _ _;
    time = t;
    is_time = rw (
      get-set J json (codes "updatedDateTime") (codes "updatedDateTime") (string t) (string [])
          r.members,
      as_string-string,
    );
  }

  -- The first four members.
  named_json : FirmwareInfo J → Value
  named_json p =
      let json = put_text J p.json (codes "name") p.name in
      let json = put_text J json (codes "version") p.version in
      let json = put_text J json (codes "url") p.uri in
      put_text J json (codes "verifier") p.verifier

  Readable-named : (p : FirmwareInfo J) → Readable p.json → Readable (named_json p)
  unfolding named_json text_eq codes
  Readable-named p r =
      Readable-put_text _ _ _ refl (
        Readable-put_text _ _ _ refl
          (Readable-put_text _ _ _ refl (Readable-put_text _ _ _ refl r)))

  put_status : ℤ → Value → Value
  put_status status json =
      if int_eq status (negsuc 0) then json else set json (codes "updateStatus") (int status)

  put_time : ℤ → Value → Value
  put_time time json =
      if int_eq time (negsuc 0)
      then json
      else set json (codes "updatedDateTime") (string (format_time time))

  set_json_value_lem :
      (p : FirmwareInfo J)
      → (set_json_value J format_time p).json
        ≡ put_time p.updated_date_time
            (put_status p.update_status (set (named_json p) (codes "state") (int p.state)))
  unfolding set_json_value put_time put_status named_json
  set_json_value_lem p = refl

  Readable-put_status :
      (status : ℤ) (json : Value) → Readable json → Readable (put_status status json)
  unfolding put_status text_eq codes
  Readable-put_status status json r = elim (Bool-cases (int_eq status (negsuc 0))) [
    | inl h ↦ rw h r
    | inr h ↦ rw h (Readable-set json _ (int status) refl r)
  ]

  Readable-put_time : (time : ℤ) (json : Value) → Readable json → Readable (put_time time json)
  unfolding put_time
  Readable-put_time time json r = elim (Bool-cases (int_eq time (negsuc 0))) [
    | inl h ↦ rw h r
    | inr h ↦ rw h (Readable-set_time json (format_time time) r)
  ]

  -- The JSON copy shows the state of the object, and the status and the time, where they are set.
  pub record Shown (p : FirmwareInfo J) : Type 0 where
    pub readable : Readable p.json
    pub state : (d : Value) → get p.json (codes "state") d ≡ ok (int p.state)
    pub status :
        int_eq p.update_status (negsuc 0) ≡ false
        → (d : Value) → get p.json (codes "updateStatus") d ≡ ok (int p.update_status)
    pub time :
        int_eq p.updated_date_time (negsuc 0) ≡ false
        → (d : Value)
        → get p.json (codes "updatedDateTime") d ≡ ok (string (format_time p.updated_date_time))

  put_status-other :
      (status : ℤ) (json : Value) (k : Text) (d : Value)
      → has_members json ≡ true
      → text_eq (codes "updateStatus") k ≡ false
      → get (put_status status json) k d ≡ get json k d
  unfolding put_status
  put_status-other status json k d h n = elim (Bool-cases (int_eq status (negsuc 0))) [
    | inl e ↦ rw e
    | inr e ↦ rw (e, get-set J json (codes "updateStatus") k (int status) d h, n)
  ]

  put_time-other :
      (time : ℤ) (json : Value) (k : Text) (d : Value)
      → has_members json ≡ true
      → text_eq (codes "updatedDateTime") k ≡ false
      → get (put_time time json) k d ≡ get json k d
  unfolding put_time
  put_time-other time json k d h n = elim (Bool-cases (int_eq time (negsuc 0))) [
    | inl e ↦ rw e
    | inr e ↦ rw (e, get-set J json (codes "updatedDateTime") k (string (format_time time)) d h, n)
  ]

  pub set_json_value-Shown :
      (p : FirmwareInfo J) → Readable p.json → Shown (set_json_value J format_time p)
  unfolding set_json_value put_status put_time named_json text_eq codes
  set_json_value-Shown p r =
      let r1 = Readable-named p r in
      let r2 = Readable-set _ (codes "state") (int p.state) refl r1 in
      let r3 = Readable-put_status p.update_status _ r2 in
      record {
        readable = Readable-put_time p.updated_date_time _ r3;
        state = λ d.
            put_time-other p.updated_date_time _ (codes "state") d r3.members refl
            ∙ put_status-other p.update_status _ (codes "state") d r2.members refl
            ∙ get-set_self _ _ _ d r1.members;
        status = λ e d.
            put_time-other p.updated_date_time _ (codes "updateStatus") d r3.members refl
            ∙ rw e (get-set_self _ _ _ d r2.members);
        time = λ e d. rw e (get-set_self _ _ _ d r3.members);
      }
