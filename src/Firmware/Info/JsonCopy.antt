-- ===== src/Firmware/Info/JsonCopy.antt =====
-- The JSON copy of a firmware info of src/IOTP_DeviceFirmwareHandler.cpp under its setters.
use ibmiotf_cpp.Base.{
  ℤ, negsuc, int_eq, ◌≡◌, true, ok, List, [], ◌∷◌, Option, Bool-cases, inl, inr, ◌⊎◌,
}
use mathlib.Core.Path.{subst}
use ibmiotf_cpp.Json.{JsonLib}
use ibmiotf_cpp.Text.{Text, codes}
use ibmiotf_cpp.Firmware.Info.{
  FirmwareInfo, new_full_info, set_name, set_version, set_uri, set_verifier, set_state,
  set_update_status, set_updated_date_time,
}
use ibmiotf_cpp.Firmware.Info.Shown.{Shown, Readable-null, set_json_value-Shown}

module _ (J : JsonLib) (format_time : ℤ → Text) where
  open J use {
    Value, null, string, int, get, set, as_string, has_members, has_members-null, has_members-set,
    get-null, as_string-string, get-set_self,
  }

  -- A call of a setter.
  pub data Edit : Type 0 where
    name_edit version_edit uri_edit verifier_edit : Text → Edit
    state_edit update_status_edit updated_date_time_edit : ℤ → Edit

  unfoldable pub edit : Edit → FirmwareInfo J → FirmwareInfo J
  edit (name_edit t) p = set_name J format_time t p
  edit (version_edit t) p = set_version J format_time t p
  edit (uri_edit t) p = set_uri J format_time t p
  edit (verifier_edit t) p = set_verifier J format_time t p
  edit (state_edit i) p = set_state J format_time i p
  edit (update_status_edit i) p = set_update_status J format_time i p
  edit (updated_date_time_edit i) p = set_updated_date_time J format_time i p

  unfoldable pub edits : List Edit → FirmwareInfo J → FirmwareInfo J
  unfolding edit
  edits [] p = p
  edits (e ∷ es) p = edits es (edit e p)

  Shown-renamed :
      (name version uri verifier : Text) (p : FirmwareInfo J)
      → Shown J format_time p
      → Shown J format_time
          (record p { name = name; version = version; uri = uri; verifier = verifier })
  Shown-renamed name version uri verifier p h = record {
    readable = h.readable;
    state = h.state;
    status = h.status;
    time = h.time;
  }

  edit-Shown :
      (e : Edit) (p : FirmwareInfo J) → Shown J format_time p → Shown J format_time (edit e p)
  unfolding edit set_name set_version set_uri set_verifier set_state set_update_status
      set_updated_date_time
  edit-Shown (name_edit t) p h = Shown-renamed t p.version p.uri p.verifier p h
  edit-Shown (version_edit t) p h = Shown-renamed p.name t p.uri p.verifier p h
  edit-Shown (uri_edit t) p h = Shown-renamed p.name p.version t p.verifier p h
  edit-Shown (verifier_edit t) p h = Shown-renamed p.name p.version p.uri t p h
  edit-Shown (state_edit i) p h = set_json_value-Shown J format_time _ h.readable
  edit-Shown (update_status_edit i) p h = set_json_value-Shown J format_time _ h.readable
  edit-Shown (updated_date_time_edit i) p h = set_json_value-Shown J format_time _ h.readable

  pub edits-keep_Shown :
      (es : List Edit) (p : FirmwareInfo J)
      → Shown J format_time p
      → Shown J format_time (edits es p)
  unfolding edits
  edits-keep_Shown [] p h = h
  edits-keep_Shown (e ∷ es) p h = edits-keep_Shown es (edit e p) (edit-Shown e p h)

  pub new_full_info-Shown :
      (name version uri verifier : Option Text) (state status time : ℤ)
      → Shown J format_time
          (new_full_info J format_time name version uri verifier state status time)
  unfolding new_full_info
  new_full_info-Shown name version uri verifier state status time =
      set_json_value-Shown J format_time _ (Readable-null J format_time)

  -- After any calls of the setters on a new firmware info, its JSON copy shows the object's state; it
  -- shows the object's update status and the time of the update too, where these are not -1.
  pub edits-shown :
      (name version uri verifier : Option Text) (state status time : ℤ) (es : List Edit) (d : Value)
      {p : FirmwareInfo J}
      → edits es (new_full_info J format_time name version uri verifier state status time) ≡ p
      → (get p.json (codes "state") d ≡ ok (int p.state))
        × ((int_eq p.update_status (negsuc 0) ≡ true)
            ⊎ (get p.json (codes "updateStatus") d ≡ ok (int p.update_status)))
        × ((int_eq p.updated_date_time (negsuc 0) ≡ true)
            ⊎ (get p.json (codes "updatedDateTime") d
                ≡ ok (string (format_time p.updated_date_time))))
  edits-shown name version uri verifier state status time es d {p} e =
      let h : Shown J format_time p =
        subst (Shown J format_time) e (
          edits-keep_Shown es _
            (new_full_info-Shown name version uri verifier state status time)) in
      (
        h.state d,
        elim (Bool-cases (int_eq p.update_status (negsuc 0))) [
          | inl u ↦ inl u
          | inr u ↦ inr (h.status u d)
        ],
        elim (Bool-cases (int_eq p.updated_date_time (negsuc 0))) [
          | inl u ↦ inl u
          | inr u ↦ inr (h.time u d)
        ],
      )
