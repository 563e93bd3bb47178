-- ===== src/Callback/Membership.antt =====
-- Which topics are among the subscriptions after one is added or removed.
use ibmiotf_cpp.Base.{◌≡◌, refl, false, ◌||◌, List, [], ◌∷◌, ◌++◌, arith, Bool-cases, inl, inr}
use ibmiotf_cpp.Text.{Text, text_eq, eq_of_text_eq}
use ibmiotf_cpp.Callback.{contains, remove_first}

pub contains-append :
    (t s : Text) (l : List Text) → contains t (l ++ (s ∷ [])) ≡ contains t l || text_eq s t
unfolding contains
contains-append t s [] = ground arith
contains-append t s (u ∷ l) = ground (arith, contains-append t s l)

pub contains-remove_other :
    (t s : Text) (l : List Text)
    → text_eq t s ≡ false
    → contains s (remove_first t l) ≡ contains s l
unfolding contains remove_first
contains-remove_other t s [] h = refl
contains-remove_other t s (u ∷ l) h = elim (Bool-cases (text_eq u t)) [
  | inl e ↦ rw (e, eq_of_text_eq u t e, h)
  | inr e ↦ rw e (ground (arith, contains-remove_other t s l h))
]
