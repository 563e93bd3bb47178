-- ===== src/Json/Members.antt =====
-- Reading a member after an assignment, in one equation.
use ibmiotf_cpp.Base.{◌≡◌, true, inl, inr, Bool-cases, ok, if◌then◌else◌}
use ibmiotf_cpp.Json.{JsonLib}
use ibmiotf_cpp.Text.{Text, text_eq, eq_of_text_eq}

module _ (J : JsonLib) where
  open J use {Value, get, set, has_members, get-set_self, get-set_ne}

  pub get-set :
      (v : Value) (k j : Text) (x d : Value)
      → has_members v ≡ true
      → get (set v k x) j d ≡ (if text_eq k j then ok x else get v j d)
  get-set v k j x d h = elim (Bool-cases (text_eq k j)) [
    | inl e ↦ rw (e, ← eq_of_text_eq k j e) (get-set_self v k x d h)
    | inr e ↦ rw e (get-set_ne v k j x d h e)
  ]
