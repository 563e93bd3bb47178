-- ===== src/Command/Device.antt =====
-- What parse_command makes of the command topic of a device client, "iot-2/cmd/…/fmt/…".
use ibmiotf_cpp.Base.{
  ◌+◌, ◌<◌, ◌≡◌, refl, ◌∙◌, false, ◌++◌, append_assoc, arith, ok, length, length-append, ◌∷◌, [],
}
use ibmiotf_cpp.Text.{Text, codes, npos, text_eq}
use ibmiotf_cpp.Text.Search.{find, size_add, size_sub, substr}
use ibmiotf_cpp.Text.Segment.{
  NoSlash, slash, ends_with, search_from-skip, search_from-hit, search_from-last, substr-middle,
  find-key, find-slash,
}
use ibmiotf_cpp.Command.{field, parse_command}
use ibmiotf_cpp.Command.Fields.{
  find-found, find-absent, field-segment, size_add-small, size_sub-add, last-at,
}

-- The topic of a command for the device of a device client.
abbrev pub device_topic : Text → Text → Text
device_topic c f = codes "iot-2/cmd/" ++ (c ++ (codes "/fmt/" ++ f))

module _ (c f : Text) (hc : NoSlash c) (hf : NoSlash f) where
  find-missing :
      (k : Text)
      → NoSlash k
      → ends_with k (codes "iot-2") ≡ false
      → ends_with k (codes "cmd") ≡ false
      → ends_with k c ≡ false
      → ends_with k (codes "fmt") ≡ false
      → find (device_topic c f) (k ++ slash ∷ []) 0 ≡ npos
  unfolding codes
  find-missing k hk e1 e2 e3 e4 = find-absent (device_topic c f) (k ++ slash ∷ []) (
      search_from-skip k (codes "iot-2") _ 0 hk (omega arith) e1
      ∙ search_from-skip k (codes "cmd") _ 6 hk (omega arith) e2
      ∙ search_from-skip k c _ 10 hk hc e3
      ∙ search_from-skip k (codes "fmt") f (10 + length c + 1) hk (omega arith) e4
      ∙ search_from-last k f _ hf)

  find-cmd : find (device_topic c f) (codes "cmd/") 0 ≡ 6
  unfolding codes ends_with text_eq
  find-cmd = find-found (device_topic c f) (codes "cmd/") 6 (
      search_from-skip (codes "cmd") (codes "iot-2") _ 0 (omega arith) (omega arith) refl
      ∙ search_from-hit (codes "cmd") _ 6 (omega arith))

  length-device_topic : length (device_topic c f) ≡ 15 + length c + length f
  unfolding codes
  length-device_topic = omega (arith, length-append {0} c (codes "/fmt/" ++ f))

  cmd_end : find (device_topic c f) (slash ∷ []) 10 ≡ 10 + length c
  unfolding codes
  cmd_end = find-slash (codes "iot-2/cmd/") c (codes "fmt/" ++ f) hc

  fmt_pos : find (device_topic c f) (codes "fmt/") (10 + length c + 1) ≡ 11 + length c
  unfolding codes
  fmt_pos =
      let before : length (codes "iot-2/cmd/" ++ (c ++ slash ∷ [])) ≡ 10 + length c + 1 =
        omega (arith, length-append {0} c (slash ∷ [])) in
      rw (← before) (
        simp append_assoc at
          (find-key (codes "iot-2/cmd/" ++ (c ++ slash ∷ [])) (codes "fmt") f (omega arith))
        ∙ omega (arith, before))

  type_missing :
      ends_with (codes "type") c ≡ false → find (device_topic c f) (codes "type/") 0 ≡ npos
  unfolding codes ends_with text_eq
  type_missing e = find-missing (codes "type") (omega arith) refl refl e refl

  id_missing : ends_with (codes "id") c ≡ false → find (device_topic c f) (codes "id/") 0 ≡ npos
  unfolding codes ends_with text_eq
  id_missing e = find-missing (codes "id") (omega arith) refl refl e refl

  module _ (small : length (device_topic c f) < npos) where
    type_field : field (device_topic c f) (size_add npos 5) ≡ ok (codes "2")
    unfolding codes size_add
    type_field =
        field-segment (codes "iot-") (codes "2") (codes "cmd/" ++ (c ++ (codes "/fmt/" ++ f)))
          (omega arith) small

    id_field : field (device_topic c f) (size_add npos 3) ≡ ok (codes "t-2")
    unfolding codes size_add
    id_field =
        field-segment (codes "io") (codes "t-2") (codes "cmd/" ++ (c ++ (codes "/fmt/" ++ f)))
          (omega arith) small

    name_field : substr (device_topic c f) 10 (size_sub (10 + length c) 10) ≡ ok c
    unfolding codes
    name_field =
        rw (size_sub-add 10 (length c) (omega (arith, length-device_topic)))
          (substr-middle (codes "iot-2/cmd/") c (codes "/fmt/" ++ f))

    fmt_start :
        size_add (find (device_topic c f) (codes "fmt/") (size_add (10 + length c) 1)) 4
        ≡ 15 + length c
    unfolding codes
    fmt_start =
        rw (size_add-small (10 + length c) 1 (omega (arith, length-device_topic)), fmt_pos)
          (size_add-small (11 + length c) 4 (omega (arith, length-device_topic)) ∙ omega arith)

    format_field :
        substr
          (device_topic c f)
          (15 + length c)
          (find (device_topic c f) (slash ∷ []) (15 + length c))
        ≡ ok f
    unfolding codes
    format_field =
        last-at (device_topic c f) (codes "iot-2/cmd/" ++ (c ++ codes "/fmt/")) f (15 + length c)
          (simp append_assoc) (omega (arith, length-append {0} c (codes "/fmt/"))) hf small

cmd_start : size_add 6 4 ≡ 10
unfolding size_add
cmd_start = refl

-- On the topic of a device client, for a slash-free name and format, the name ending neither in
-- "type" nor in "id", the command's name and format are read correctly, but its device type is
-- always "2" and its device id "t-2". The topic is shorter than 2 ^ 64 - 1 bytes.
pub parse_command-device_topic :
    (c f payload : Text)
    → NoSlash c
    → NoSlash f
    → ends_with (codes "type") c ≡ false
    → ends_with (codes "id") c ≡ false
    → length (device_topic c f) < npos
    → parse_command (device_topic c f) payload
      ≡ ok (record {
        device_type = codes "2";
        device_id = codes "t-2";
        command_name = c;
        format = f;
        payload = payload;
      })
unfolding parse_command
parse_command-device_topic c f payload hc hf et ei small = rw (
  type_missing c f hc hf et,
  type_field c f hc hf small,
  id_missing c f hc hf ei,
  id_field c f hc hf small,
  find-cmd c f hc hf,
  cmd_start,
  cmd_end c f hc hf,
  name_field c f hc hf small,
  fmt_start c f hc hf small,
  format_field c f hc hf small,
)
