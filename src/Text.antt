-- ===== src/Text.antt =====
-- std::string as the program uses it: a list of bytes. `size_t` is 64 bits wide.
pub mod Search
pub mod Segment
pub mod Decimal
use Prim.Native.Char.{code}
use Prim.Native.String.{String}
use ibmiotf_cpp.Base.{
  ℕ, ◌-◌, ◌^◌, ◌≡◌, refl, ◌↔◌, Bool, true, false, ◌&&◌, List, [], ◌∷◌, arith, ◌==◌, ◌≢◌, Bool-cases,
  if◌then◌else◌, inl, inr,
}

abbrev pub Text : Type 0
Text = List ℕ

-- The bytes of an ASCII literal.
unfoldable pub codes : String → Text
codes String.[] = []
codes (String.◌∷◌ c s) = code c ∷ codes s

abbrev pub size_mod : ℕ
size_mod = 2 ^ 64

-- std::string::npos
abbrev pub npos : ℕ
npos = size_mod - 1

-- std::string::compare(…) == 0, and operator==
unfoldable pub text_eq : Text → Text → Bool
text_eq [] [] = true
text_eq [] (b ∷ y) = false
text_eq (a ∷ x) [] = false
text_eq (a ∷ x) (b ∷ y) = a == b && text_eq x y

-- std::string::empty, and size() == 0
unfoldable pub is_empty : Text → Bool
is_empty [] = true
is_empty (a ∷ x) = false

pub text_eq_refl : (x : Text) → text_eq x x ≡ true
unfolding text_eq
text_eq_refl [] = refl
text_eq_refl (a ∷ x) = ground (arith, text_eq_refl x)

pub eq_of_text_eq : (x y : Text) → text_eq x y ≡ true → x ≡ y
unfolding text_eq
eq_of_text_eq [] [] h = refl
eq_of_text_eq [] (b ∷ y) h = cc
eq_of_text_eq (a ∷ x) [] h = cc
eq_of_text_eq (a ∷ x) (b ∷ y) h = ground (arith, eq_of_text_eq x y)

pub text_eq_iff : (x y : Text) → (text_eq x y ≡ true) ↔ (x ≡ y)
text_eq_iff x y = (eq_of_text_eq x y, λ e. rw e (text_eq_refl y))

pub text_eq-eq_false : (x y : Text) → x ≢ y → text_eq x y ≡ false
text_eq-eq_false x y n = elim (Bool-cases (text_eq x y)) [
  | inl e ↦ absurd (n (eq_of_text_eq x y e))
  | inr e ↦ e
]
