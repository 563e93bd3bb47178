-- ===== src/Text/Decimal.antt =====
-- std::to_string, an unsigned number on an output stream, and std::stoi.
use ibmiotf_cpp.Base.{
  ℕ, zero, suc, ◌+◌, ◌-◌, ◌*◌, ◌/◌, ◌%◌, ◌<◌, ◌≡◌, refl, sym, ap, ◌∙◌, Bool, false, ◌&&◌, ◌||◌, [],
  ◌∷◌, ◌++◌, arith, leb, ltb, ◌==◌, if◌then◌else◌, Result, ok, err, invalid_argument, out_of_range,
  ℤ, pos, negsuc, Bool-cases, inl, inr,
}
use ibmiotf_cpp.Text.{Text, is_empty}

-- The digits of `n`, with fuel; `n + 1` rounds are more than enough.
decimal_fuel : ℕ → ℕ → Text
decimal_fuel zero n = []
decimal_fuel (suc fuel) n =
    let more = decimal_fuel fuel (n / 10) ++ ((n % 10 + 48) ∷ []) in
    if ltb n 10 then (n + 48) ∷ [] else more

unfoldable pub decimal : ℕ → Text
unfolding decimal_fuel
decimal n = decimal_fuel (suc n) n

-- std::to_string of an int
unfoldable pub decimal_int : ℤ → Text
decimal_int (pos n) = decimal n
decimal_int (negsuc n) = b'-' ∷ decimal (suc n)

is_digit : ℕ → Bool
is_digit c = leb 48 c && leb c 57

-- The number that a run of digits stands for.
digits_value : ℕ → Text → ℕ
digits_value acc [] = acc
digits_value acc (c ∷ s) = digits_value (acc * 10 + (c - 48)) s

digits_value-append :
    (acc c : ℕ) (s : Text) → digits_value acc (s ++ (c ∷ [])) ≡ digits_value acc s * 10 + (c - 48)
unfolding digits_value
digits_value-append acc c [] = refl
digits_value-append acc c (d ∷ s) = digits_value-append (acc * 10 + (d - 48)) c s

value-decimal_fuel : (fuel n : ℕ) → n < fuel → digits_value 0 (decimal_fuel fuel n) ≡ n
unfolding decimal_fuel digits_value
value-decimal_fuel zero n h = elim h [ ]
value-decimal_fuel (suc fuel) n h = elim (Bool-cases (ltb n 10)) [
  | inl small ↦ rw small (omega arith)
  | inr large ↦
      rw
        (
          large,
          digits_value-append 0 (n % 10 + 48) (decimal_fuel fuel (n / 10)),
          value-decimal_fuel fuel (n / 10) (ground arith),
        )
        (omega arith)
]

-- The digits determine the number.
pub decimal-injective : (m n : ℕ) → decimal m ≡ decimal n → m ≡ n
unfolding decimal
decimal-injective m n e =
    sym (value-decimal_fuel (suc m) m (omega arith))
    ∙ ap (digits_value 0) e
    ∙ value-decimal_fuel (suc n) n (omega arith)

is_empty-snoc : (x : Text) (c : ℕ) → is_empty (x ++ (c ∷ [])) ≡ false
unfolding is_empty
is_empty-snoc [] c = refl
is_empty-snoc (a ∷ x) c = refl

pub is_empty-decimal : (n : ℕ) → is_empty (decimal n) ≡ false
unfolding decimal
is_empty-decimal n = elim (Bool-cases (ltb n 10)) [
  | inl small ↦ rw small (unfold is_empty in refl)
  | inr large ↦ rw large (is_empty-snoc (decimal_fuel n (n / 10)) (n % 10 + 48))
]

-- isspace in the "C" locale
is_space : ℕ → Bool
is_space c = c == 32 || leb 9 c && leb c 13

skip_space : Text → Text
skip_space [] = []
skip_space (c ∷ s) = let rest = skip_space s in if is_space c then rest else c ∷ s

leading_digits : Text → Text
leading_digits [] = []
leading_digits (c ∷ s) = if is_digit c then c ∷ leading_digits s else []

-- The value of the digits, if it fits the range of an int on that side of zero.
bounded : ℕ → (ℕ → ℤ) → Text → Result ℤ
unfolding digits_value
bounded limit sign [] = err invalid_argument
bounded limit sign (c ∷ s) =
    let n = digits_value 0 (c ∷ s) in if leb n limit then ok (sign n) else err out_of_range

negate : ℕ → ℤ
negate zero = pos 0
negate (suc n) = negsuc n

signed : Text → Result ℤ
unfolding leading_digits is_digit bounded negate
signed [] = err invalid_argument
signed (c ∷ s) =
    if c == b'-'
    then bounded 2147483648 negate (leading_digits s)
    else if c == b'+'
    then bounded 2147483647 pos (leading_digits s)
    else bounded 2147483647 pos (leading_digits (c ∷ s))

-- std::stoi: white space, a sign, digits; what follows them is ignored.
unfoldable pub stoi : Text → Result ℤ
unfolding skip_space is_space signed
stoi s = signed (skip_space s)

stoi_port : stoi (32 ∷ 49 ∷ 56 ∷ 56 ∷ 51 ∷ 120 ∷ []) ≡ ok (pos 1883)
unfolding stoi
stoi_port = refl
