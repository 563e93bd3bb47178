-- ===== src/Topics/Filter.antt =====
-- What a subscription to a topic filter receives, by the rules of MQTT: `+` stands for one level, `#`
-- for all the levels that follow.
use ibmiotf_cpp.Base.{
  ℕ, ◌≡◌, refl, Bool, true, false, ◌&&◌, ◌||◌, List, [], ◌∷◌, ◌++◌, arith, ◌==◌, if◌then◌else◌,
  Bool-cases, inl, inr,
}
use ibmiotf_cpp.Text.{Text, codes, text_eq}
use ibmiotf_cpp.Text.Segment.{NoSlash, slash}

add_to_first : ℕ → List Text → List Text
add_to_first c [] = (c ∷ []) ∷ []
add_to_first c (l ∷ ls) = (c ∷ l) ∷ ls

-- The levels of a topic.
unfoldable pub levels : Text → List Text
unfolding add_to_first
levels [] = [] ∷ []
levels (c ∷ s) = if c == slash then [] ∷ levels s else add_to_first c (levels s)

unfoldable pub matches_levels : List Text → List Text → Bool
matches_levels [] [] = true
matches_levels [] (t ∷ ts) = false
matches_levels (f ∷ fs) [] = text_eq f (codes "#")
matches_levels (f ∷ fs) (t ∷ ts) =
    text_eq f (codes "#") || ((text_eq f (codes "+") || text_eq f t) && matches_levels fs ts)

unfoldable pub matches : Text → Text → Bool
unfolding levels matches_levels
matches filter topic = matches_levels (levels filter) (levels topic)

pub levels-segment : (u rest : Text) → NoSlash u → levels (u ++ (slash ∷ rest)) ≡ u ∷ levels rest
unfolding levels
levels-segment [] rest h = refl
levels-segment (c ∷ u) rest h = elim (Bool-cases (c == slash)) [
  | inl e ↦ absurd (ground (arith, e, h.0))
  | inr e ↦ rw (e, levels-segment u rest h.1)
]

pub levels-last : (u : Text) → NoSlash u → levels u ≡ u ∷ []
unfolding levels
levels-last [] h = refl
levels-last (c ∷ u) h = elim (Bool-cases (c == slash)) [
  | inl e ↦ absurd (ground (arith, e, h.0))
  | inr e ↦ rw (e, levels-last u h.1)
]
