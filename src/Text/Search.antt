-- ===== src/Text/Search.antt =====
-- find, find_first_of and substr of std::string.
use ibmiotf_cpp.Base.{
  ℕ, suc, ◌+◌, ◌-◌, ◌%◌, Bool, true, false, ◌&&◌, [], ◌∷◌, Option, none, some, ◌==◌, leb,
  if◌then◌else◌, length, take, drop, Result, ok, err, out_of_range,
}
use ibmiotf_cpp.Text.{Text, size_mod, npos}

-- size_t arithmetic wraps.
unfoldable pub size_add : ℕ → ℕ → ℕ
size_add a b = (a + b) % size_mod

unfoldable pub size_sub : ℕ → ℕ → ℕ
size_sub a b = (a + size_mod - b) % size_mod

unfoldable pub starts_with : Text → Text → Bool
starts_with [] s = true
starts_with (a ∷ p) [] = false
starts_with (a ∷ p) (c ∷ s) = a == c && starts_with p s

-- The first place of `p` in `s`, counted from `i`.
unfoldable pub search_from : Text → Text → ℕ → Option ℕ
unfolding starts_with
search_from p [] i = if starts_with p [] then some i else none
search_from p (c ∷ s) i =
    let rest = search_from p s (suc i) in if starts_with p (c ∷ s) then some i else rest

-- A missing pattern is at `npos`.
unfoldable pub position : Option ℕ → ℕ
position none = npos
position (some i) = i

-- s.find(p, pos), and s.find_first_of(c, pos) for a single character
unfoldable pub find : Text → Text → ℕ → ℕ
unfolding search_from position
find s p pos = if leb pos (length s) then position (search_from p (drop pos s) pos) else npos

-- s.substr(pos, n)
unfoldable pub substr : Text → ℕ → ℕ → Result Text
substr s pos n = if leb pos (length s) then ok (take n (drop pos s)) else err out_of_range
