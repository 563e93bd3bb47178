-- ===== src/Command/RoundTrip.antt =====
-- What parse_command makes of the topics on which commands arrive.
use ibmiotf_cpp.Base.{
  ◌+◌, ◌<◌, ◌≡◌, refl, ◌∙◌, false, ◌++◌, append_assoc, arith, ok, length, length-append,
}
use ibmiotf_cpp.Text.{Text, codes, npos, text_eq}
use ibmiotf_cpp.Text.Search.{find, size_add}
use ibmiotf_cpp.Text.Segment.{NoSlash, ends_with, search_from-skip, search_from-suffix}
use ibmiotf_cpp.Command.{field, parse_command}
use ibmiotf_cpp.Command.Fields.{command_topic, find-found, field-at, id_field, parse_command-fields}

-- A command on a topic of four slash-free segments, whose device type ends neither in "id" nor in
-- "cmd" and whose device id does not end in "cmd", is parsed back into these segments. The topic is
-- shorter than 2 ^ 64 - 1 bytes.
pub parse_command-command_topic :
    (t d c f payload : Text)
    → NoSlash t
    → NoSlash d
    → NoSlash c
    → NoSlash f
    → ends_with (codes "id") t ≡ false
    → ends_with (codes "cmd") t ≡ false
    → ends_with (codes "cmd") d ≡ false
    → length (command_topic t d c f) < npos
    → parse_command (command_topic t d c f) payload
      ≡ ok (record {
        device_type = t;
        device_id = d;
        command_name = c;
        format = f;
        payload = payload;
      })
parse_command-command_topic t d c f payload ht hd hc hf ei et ed small =
    parse_command-fields t d c f payload d ht hd hc hf et ed small
      (id_field t d c f ht hd hc hf ei small)

module _ (v d c f : Text) (hv : NoSlash v) where
  find-id_suffix : find (command_topic (v ++ codes "id") d c f) (codes "id/") 0 ≡ 11 + length v
  unfolding codes ends_with text_eq
  find-id_suffix =
      find-found (command_topic (v ++ codes "id") d c f) (codes "id/") (11 + length v) (
        search_from-skip (codes "id") (codes "iot-2") _ 0 (omega arith) (omega arith) refl
        ∙ search_from-skip (codes "id") (codes "type") _ 6 (omega arith) (omega arith) refl
        ∙ rw append_assoc (search_from-suffix (codes "id") v _ 11 (omega arith) hv))

  id_field-suffix :
      length (command_topic (v ++ codes "id") d c f) < npos
      → field
          (command_topic (v ++ codes "id") d c f)
          (size_add (find (command_topic (v ++ codes "id") d c f) (codes "id/") 0) 3)
        ≡ ok (codes "id")
  unfolding codes
  id_field-suffix small = rw find-id_suffix (
      field-at (command_topic (v ++ codes "id") d c f) (codes "iot-2/type/" ++ (v ++ codes "id/"))
        (codes "id") (d ++ (codes "/cmd/" ++ (c ++ (codes "/fmt/" ++ f)))) (11 + length v) 3
        (simp append_assoc) (omega (arith, length-append {0} v (codes "id/"))) (omega arith) small)

-- A command on a topic of four slash-free segments, whose device type ends in "id" and whose device
-- id does not end in "cmd", is handed over with the device id "id", whatever the device's id is; the
-- other fields are right. The topic is shorter than 2 ^ 64 - 1 bytes.
pub parse_command-id_suffix :
    (v d c f payload : Text)
    → NoSlash v
    → NoSlash (v ++ codes "id")
    → NoSlash d
    → NoSlash c
    → NoSlash f
    → ends_with (codes "cmd") (v ++ codes "id") ≡ false
    → ends_with (codes "cmd") d ≡ false
    → length (command_topic (v ++ codes "id") d c f) < npos
    → parse_command (command_topic (v ++ codes "id") d c f) payload
      ≡ ok (record {
        device_type = v ++ codes "id";
        device_id = codes "id";
        command_name = c;
        format = f;
        payload = payload;
      })
parse_command-id_suffix v d c f payload hv ht hd hc hf et ed small =
    parse_command-fields (v ++ codes "id") d c f payload (codes "id") ht hd hc hf et ed small
      (id_field-suffix v d c f hv small)
