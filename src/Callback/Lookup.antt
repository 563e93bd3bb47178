-- ===== src/Callback/Lookup.antt =====
-- Subscriptions and handlers as multisets and queues.
use ibmiotf_cpp.Base.{
  ℕ, suc, ◌-◌, ◌≡◌, refl, true, false, List, [], ◌∷◌, ◌++◌, arith, if◌then◌else◌, inl, inr,
  Bool-cases,
}
use ibmiotf_cpp.Text.{Text, text_eq, text_eq_refl, eq_of_text_eq}
use ibmiotf_cpp.Callback.{
  Callback, Handler, custom, handler_eq, is_entry, contains_entry, check_handler, add_handler,
  remove_subscription, remove_first, equal_range,
}

-- How often a topic stands among the subscriptions.
unfoldable pub occurrences : Text → List Text → ℕ
occurrences topic [] = 0
occurrences topic (t ∷ l) =
    if text_eq t topic then suc (occurrences topic l) else occurrences topic l

occurrences-remove_first :
    (t : Text) (l : List Text) → occurrences t (remove_first t l) ≡ occurrences t l - 1
unfolding occurrences remove_first
occurrences-remove_first t [] = refl
occurrences-remove_first t (u ∷ l) = elim (Bool-cases (text_eq u t)) [
  | inl e ↦ rw e (ground arith)
  | inr e ↦ rw (e, e) (ground (arith, occurrences-remove_first t l))
]

occurrences-remove_other :
    (t s : Text) (l : List Text)
    → text_eq t s ≡ false
    → occurrences s (remove_first t l) ≡ occurrences s l
unfolding occurrences remove_first
occurrences-remove_other t s [] h = refl
occurrences-remove_other t s (u ∷ l) h = elim (Bool-cases (text_eq u t)) [
  | inl e ↦ rw (e, eq_of_text_eq u t e, h) (ground arith)
  | inr e ↦ rw e (ground (arith, occurrences-remove_other t s l h))
]

remove_first_lem :
    (t s : Text) (l : List Text)
    → occurrences s (remove_first t l)
      ≡ (if text_eq t s then occurrences s l - 1 else occurrences s l)
remove_first_lem t s l = elim (Bool-cases (text_eq t s)) [
  | inl e ↦ rw (e, eq_of_text_eq t s e) (occurrences-remove_first s l)
  | inr e ↦ rw e (occurrences-remove_other t s l e)
]

-- Removing a subscription removes one occurrence of the topic, if there is one, and none of any other.
pub occurrences-remove_subscription :
    (t s : Text) (c : Callback)
    → occurrences s (remove_subscription t c).subscriptions
      ≡ (if text_eq t s then occurrences s c.subscriptions - 1 else occurrences s c.subscriptions)
unfolding remove_subscription
occurrences-remove_subscription t s c = remove_first_lem t s c.subscriptions

handler_eq_refl : (h : Handler) → handler_eq h h ≡ true
unfolding handler_eq
handler_eq_refl (custom n) = ground arith
handler_eq_refl _ = refl

contains_entry-append :
    (t : Text) (h : Handler) (l : List (Text × Handler))
    → contains_entry t h (l ++ ((t, h) ∷ [])) ≡ true
unfolding contains_entry is_entry
contains_entry-append t h [] = rw (text_eq_refl t, handler_eq_refl h)
contains_entry-append t h (e ∷ l) = ground (arith, contains_entry-append t h l)

pub check_handler-add_handler :
    (t : Text) (h : Handler) (c : Callback) → check_handler t h (add_handler t h c) ≡ true
unfolding check_handler add_handler
check_handler-add_handler t h c = contains_entry-append t h c.handlers

range-append :
    (t s : Text) (h : Handler) (l : List (Text × Handler))
    → equal_range s (l ++ ((t, h) ∷ []))
      ≡ (if text_eq t s then equal_range s l ++ (h ∷ []) else equal_range s l)
unfolding equal_range
range-append t s h [] = ground arith
range-append t s h ((u, k) ∷ l) = ground (arith, range-append t s h l)

-- A handler that is added for a topic comes last among the handlers of that topic, and changes
-- nothing for any other.
pub equal_range-add_handler :
    (t s : Text) (h : Handler) (c : Callback)
    → equal_range s (add_handler t h c).handlers
      ≡ (if text_eq t s then equal_range s c.handlers ++ (h ∷ []) else equal_range s c.handlers)
unfolding add_handler
equal_range-add_handler t s h c = range-append t s h c.handlers
