-- ===== src/Command/Fields.antt =====
-- The fields of parse_command on a command topic, one by one.
use ibmiotf_cpp.Base.{
  ℕ, ◌+◌, ◌<◌, ◌≡◌, refl, ap, ◌∙◌, false, [], ◌∷◌, ◌++◌, append_assoc, some, none, arith, ok,
  length, length-append, leb-eq_true,
}
use ibmiotf_cpp.Text.{Text, codes, npos, text_eq}
use ibmiotf_cpp.Text.Search.{find, substr, size_add, size_sub, search_from, position}
use ibmiotf_cpp.Text.Segment.{
  NoSlash, slash, ends_with, search_from-skip, search_from-hit, find-slash, find-slash_last,
  find-key, substr-middle, substr-rest,
}
use ibmiotf_cpp.Command.{field, parse_command}

-- The topic of a command for a device of a gateway.
abbrev pub command_topic : Text → Text → Text → Text → Text
command_topic t d c f =
    codes "iot-2/type/"
    ++ (t ++ (codes "/id/" ++ (d ++ (codes "/cmd/" ++ (c ++ (codes "/fmt/" ++ f))))))

module _ (topic : Text) where
  pub find-found : (p : Text) (i : ℕ) → search_from p topic 0 ≡ some i → find topic p 0 ≡ i
  unfolding find position
  find-found p i h = rw (leb-eq_true 0 (length topic) (omega arith), h)

  pub find-absent : (p : Text) → search_from p topic 0 ≡ none → find topic p 0 ≡ npos
  unfolding find position
  find-absent p h = rw (leb-eq_true 0 (length topic) (omega arith), h)

pub size_add-small : (a b : ℕ) → a + b < npos → size_add a b ≡ a + b
unfolding size_add
size_add-small a b h = omega arith

pub size_sub-add : (a b : ℕ) → a + b < npos → size_sub (a + b) a ≡ b
unfolding size_sub
size_sub-add a b h = omega arith

-- The segment that starts behind `p`.
pub field-segment :
    (p u rest : Text)
    → NoSlash u
    → length (p ++ (u ++ slash ∷ rest)) < npos
    → field (p ++ (u ++ slash ∷ rest)) (length p) ≡ ok u
unfolding field
field-segment p u rest h small =
    rw (find-slash p u rest h, size_sub-add (length p) (length u) fits)
      (substr-middle p u (slash ∷ rest))
  where
    fits : length p + length u < npos
    fits =
        omega (arith, length-append {0} p (u ++ slash ∷ rest), length-append {0} u (slash ∷ rest))

pub field-at :
    (topic p u rest : Text) (pos n : ℕ)
    → topic ≡ p ++ (u ++ slash ∷ rest)
    → pos + n ≡ length p
    → NoSlash u
    → length topic < npos
    → field topic (size_add pos n) ≡ ok u
field-at topic p u rest pos n e start h small =
    let fits : length p < npos =
      omega (arith, ap length e, length-append {0} p (u ++ slash ∷ rest)) in
    rw (size_add-small pos n (omega arith), start, e) (field-segment p u rest h (rw (← e) small))

pub last-at :
    (topic p u : Text) (start : ℕ)
    → topic ≡ p ++ u
    → start ≡ length p
    → NoSlash u
    → length topic < npos
    → substr topic start (find topic (b'/' ∷ []) start) ≡ ok u
last-at topic p u start e s h small =
    rw (s, e, find-slash_last p u h)
      (substr-rest p u (omega (arith, ap length e, length-append {0} p u)))

module _ (t d c f : Text) (ht : NoSlash t) (hd : NoSlash d) (hc : NoSlash c) (hf : NoSlash f) where
  abbrev pub topic : Text
  topic = command_topic t d c f

  find-type : find topic (codes "type/") 0 ≡ 6
  unfolding codes ends_with text_eq
  find-type = find-found topic (codes "type/") 6 (
      search_from-skip (codes "type") (codes "iot-2") _ 0 (omega arith) (omega arith) refl
      ∙ search_from-hit (codes "type") _ 6 (omega arith))

  find-id : ends_with (codes "id") t ≡ false → find topic (codes "id/") 0 ≡ 12 + length t
  unfolding codes ends_with text_eq
  find-id e = find-found topic (codes "id/") (12 + length t) (
      search_from-skip (codes "id") (codes "iot-2") _ 0 (omega arith) (omega arith) refl
      ∙ search_from-skip (codes "id") (codes "type") _ 6 (omega arith) (omega arith) refl
      ∙ search_from-skip (codes "id") t _ 11 (omega arith) ht e
      ∙ search_from-hit (codes "id") _ (11 + length t + 1) (omega arith)
      ∙ ap some (omega arith))

  find-cmd :
      ends_with (codes "cmd") t ≡ false
      → ends_with (codes "cmd") d ≡ false
      → find topic (codes "cmd/") 0 ≡ 16 + length t + length d
  unfolding codes ends_with text_eq
  find-cmd e g = find-found topic (codes "cmd/") (16 + length t + length d) (
      search_from-skip (codes "cmd") (codes "iot-2") _ 0 (omega arith) (omega arith) refl
      ∙ search_from-skip (codes "cmd") (codes "type") _ 6 (omega arith) (omega arith) refl
      ∙ search_from-skip (codes "cmd") t _ 11 (omega arith) ht e
      ∙ search_from-skip (codes "cmd") (codes "id") _ (11 + length t + 1) (omega arith)
          (omega arith) refl
      ∙ search_from-skip (codes "cmd") d _ (11 + length t + 1 + 2 + 1) (omega arith) hd g
      ∙ search_from-hit (codes "cmd") _ _ (omega arith)
      ∙ ap some (omega arith))

  lengths : length topic ≡ 25 + length t + length d + length c + length f
  unfolding codes
  lengths = omega (
    arith,
    length-append {0} t (codes "/id/" ++ (d ++ (codes "/cmd/" ++ (c ++ (codes "/fmt/" ++ f))))),
    length-append {0} d (codes "/cmd/" ++ (c ++ (codes "/fmt/" ++ f))),
    length-append {0} c (codes "/fmt/" ++ f),
  )

  type_field : length topic < npos → field topic (size_add (find topic (codes "type/") 0) 5) ≡ ok t
  unfolding codes
  type_field small = rw find-type (field-at topic (codes "iot-2/type/") t _ 6 5 refl refl ht small)

  pub id_field :
      ends_with (codes "id") t ≡ false
      → length topic < npos
      → field topic (size_add (find topic (codes "id/") 0) 3) ≡ ok d
  unfolding codes
  id_field e small = rw (find-id e) (
      field-at topic (codes "iot-2/type/" ++ (t ++ codes "/id/")) d
        (codes "cmd/" ++ (c ++ (codes "/fmt/" ++ f))) (12 + length t) 3 (simp append_assoc)
        (omega (arith, length-append {0} t (codes "/id/"))) hd small)

  before_cmd : Text
  before_cmd = codes "iot-2/type/" ++ (t ++ (codes "/id/" ++ (d ++ codes "/cmd/")))

  length-before_cmd : length before_cmd ≡ 20 + length t + length d
  unfolding before_cmd codes
  length-before_cmd = omega (
    arith,
    length-append {0} t (codes "/id/" ++ (d ++ codes "/cmd/")),
    length-append {0} d (codes "/cmd/"),
  )

  topic-before_cmd : topic ≡ before_cmd ++ (c ++ slash ∷ (codes "fmt/" ++ f))
  unfolding before_cmd codes
  topic-before_cmd = simp append_assoc

  before_fmt : Text
  before_fmt = before_cmd ++ (c ++ slash ∷ [])

  length-before_fmt : length before_fmt ≡ 21 + length t + length d + length c
  unfolding before_fmt
  length-before_fmt = omega (
    arith,
    length-before_cmd,
    length-append {0} before_cmd (c ++ slash ∷ []),
    length-append {0} c (slash ∷ []),
  )

  before_fmt_lem : length before_cmd + length c + 1 ≡ length before_fmt
  before_fmt_lem = omega (arith, length-before_cmd, length-before_fmt)

  topic-before_fmt : topic ≡ before_fmt ++ (codes "fmt" ++ slash ∷ f)
  unfolding before_fmt codes
  topic-before_fmt = topic-before_cmd ∙ simp append_assoc

  module _ (et : ends_with (codes "cmd") t ≡ false) (ed : ends_with (codes "cmd") d ≡ false)
      (small : length topic < npos) where
    cmd_start : size_add (find topic (codes "cmd/") 0) 4 ≡ length before_cmd
    cmd_start = rw (find-cmd et ed) (
        size_add-small (16 + length t + length d) 4 (omega (arith, lengths))
        ∙ omega (arith, length-before_cmd))

    name_field :
        substr topic
          (length before_cmd)
          (size_sub (length before_cmd + length c) (length before_cmd))
        ≡ ok c
    name_field =
        rw
          (
            size_sub-add (length before_cmd) (length c) (omega (arith, lengths, length-before_cmd)),
            topic-before_cmd,
          )
          (substr-middle before_cmd c (slash ∷ (codes "fmt/" ++ f)))

    cmd_end : find topic (slash ∷ []) (length before_cmd) ≡ length before_cmd + length c
    cmd_end = rw topic-before_cmd (find-slash before_cmd c (codes "fmt/" ++ f) hc)

    fmt_pos : find topic (codes "fmt/") (length before_cmd + length c + 1) ≡ length before_fmt
    fmt_pos =
        rw (topic-before_fmt, before_fmt_lem)
          (unfold codes in find-key before_fmt (codes "fmt") f (omega arith))

    fmt_start :
        size_add (find topic (codes "fmt/") (size_add (length before_cmd + length c) 1)) 4
        ≡ length before_fmt + 4
    fmt_start =
        rw
          (
            size_add-small (length before_cmd + length c) 1
                (omega (arith, lengths, length-before_cmd)),
            fmt_pos,
          )
          (size_add-small (length before_fmt) 4 (omega (arith, lengths, length-before_fmt)))

    format_field :
        substr topic (length before_fmt + 4) (find topic (slash ∷ []) (length before_fmt + 4))
        ≡ ok f
    format_field =
        last-at topic (before_fmt ++ codes "fmt/") f (length before_fmt + 4)
          (unfold codes in topic-before_fmt ∙ simp append_assoc)
          (unfold codes in omega (arith, length-append {0} before_fmt (codes "fmt/"))) hf small

-- All fields but the device id are read correctly, whatever is found for the id.
pub parse_command-fields :
    (t d c f payload x : Text)
    → NoSlash t
    → NoSlash d
    → NoSlash c
    → NoSlash f
    → ends_with (codes "cmd") t ≡ false
    → ends_with (codes "cmd") d ≡ false
    → length (command_topic t d c f) < npos
    → field (command_topic t d c f) (size_add (find (command_topic t d c f) (codes "id/") 0) 3)
      ≡ ok x
    → parse_command (command_topic t d c f) payload
      ≡ ok (record {
        device_type = t;
        device_id = x;
        command_name = c;
        format = f;
        payload = payload;
      })
unfolding parse_command
parse_command-fields t d c f payload x ht hd hc hf et ed small ex = rw (
  type_field t d c f ht hd hc hf small,
  ex,
  cmd_start t d c f ht hd hc hf et ed small,
  cmd_end t d c f ht hd hc hf et ed small,
  name_field t d c f ht hd hc hf et ed small,
  fmt_start t d c f ht hd hc hf et ed small,
  format_field t d c f ht hd hc hf et ed small,
)
