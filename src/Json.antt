-- ===== src/Json.antt =====
-- The part of lib/json/json.h that the client uses, as an interface: jsoncpp is third-party code.
pub mod Members
use ibmiotf_cpp.Base.{ℕ, ◌≡◌, Bool, true, false, List, Option, Result, ok, ℤ}
use ibmiotf_cpp.Text.{Text, text_eq}

-- `get` and `get_index` are Json::Value::get with a default, `set` is the assignment
-- `value[key] = x`, `array` is `append` on a null value, `parse` is Json::Reader::parse and `write`
-- Json::FastWriter::write. A failed assertion of jsoncpp is the error `json_error`.
pub record JsonLib : Type 1 where
  pub Value : Type 0
  pub Double : Type 0
  pub zero_double : Double
  pub null : Value
  pub string : Text → Value
  pub int : ℤ → Value
  pub boolean : Bool → Value
  pub double : Double → Value
  pub array : List Value → Value
  -- Members may be read and written: the value is null or an object.
  pub has_members : Value → Bool
  pub is_null : Value → Bool
  pub get : Value → Text → Value → Result Value
  pub get_index : Value → ℕ → Value → Result Value
  pub set : Value → Text → Value → Value
  pub as_string : Value → Result Text
  pub as_int : Value → Result ℤ
  pub as_double : Value → Result Double
  pub parse : Text → Option Value
  pub write : Value → Text
  pub has_members-null : has_members null ≡ true
  pub has_members-set : (v : Value) (k : Text) (x : Value) → has_members (set v k x) ≡ true
  pub get-null : (k : Text) (d : Value) → get null k d ≡ ok d
  pub get-set_self :
      (v : Value) (k : Text) (x d : Value) → has_members v ≡ true → get (set v k x) k d ≡ ok x
  pub get-set_ne :
      (v : Value) (k j : Text) (x d : Value)
      → has_members v ≡ true
      → text_eq k j ≡ false
      → get (set v k x) j d ≡ get v j d
  pub as_string-string : (s : Text) → as_string (string s) ≡ ok s
  pub as_int-int : (i : ℤ) → as_int (int i) ≡ ok i
  pub as_double-double : (x : Double) → as_double (double x) ≡ ok x
