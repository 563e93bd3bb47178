-- ===== src/Base/Results.antt =====
-- What a C++ call comes to: a value, an exception that leaves it, or the end of the program.

-- `json_error`, `mqtt_error`, `out_of_range` and `invalid_argument` are the exceptions of jsoncpp,
-- of the MQTT client and of the standard library. `terminate` is `std::terminate`; `null_pointer`,
-- `indeterminate_pointer`, `erased_iterator`, `no_return` and `buffer_overflow` are undefined behaviour.
pub data Error : Type 0 where
  json_error mqtt_error out_of_range invalid_argument terminate null_pointer indeterminate_pointer
        erased_iterator no_return buffer_overflow :
      Error

pub data Result {ℓ} (A : Type ℓ) : Type ℓ where
  ok : A → Result A
  err : Error → Result A

-- The sequence of two fallible computations.
infixl 5 ◌>>=◌
abbrev pub ◌>>=◌ {ℓ κ} : {A : Type ℓ} {B : Type κ} → Result A → (A → Result B) → Result B
ok a >>= f = f a
err e >>= f = err e
