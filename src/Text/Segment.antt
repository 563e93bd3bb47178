-- ===== src/Text/Segment.antt =====
-- Searches in a text that `/` cuts into segments.
use ibmiotf_cpp.Base.{
  ℕ, suc, ◌+◌, ◌≡◌, refl, ◌≢◌, ap, ◌∙◌, Bool, false, ◌||◌, [], ◌∷◌, ◌++◌, some, none, arith, All,
  length, length-append, append_assoc, All-append, leb-eq_true, drop-length-append,
  take-length-append, take-ge_length, ◌≤◌, ok, Bool-cases, inl, inr,
}
use ibmiotf_cpp.Text.{Text, text_eq, npos, text_eq_refl, eq_of_text_eq}
use ibmiotf_cpp.Text.Search.{starts_with, search_from, find, substr, position}

abbrev pub slash : ℕ
slash = b'/'

-- A text is one segment.
abbrev pub NoSlash : Text → Type 0
NoSlash = All (λ c. c ≢ slash)

-- `k` is a suffix of the text.
unfoldable pub ends_with : Text → Text → Bool
unfolding text_eq
ends_with k [] = text_eq k []
ends_with k (c ∷ u) = text_eq k (c ∷ u) || ends_with k u

pub starts_with-segment :
    (k u rest : Text)
    → NoSlash k
    → NoSlash u
    → starts_with (k ++ slash ∷ []) (u ++ slash ∷ rest) ≡ text_eq k u
unfolding starts_with text_eq
starts_with-segment [] [] rest hk hu = refl
starts_with-segment [] (c ∷ u) rest hk hu = ground arith
starts_with-segment (a ∷ k) [] rest hk hu = ground arith
starts_with-segment (a ∷ k) (c ∷ u) rest hk hu = rw (starts_with-segment k u rest hk.1 hu.1)

or_false : (a b : Bool) → (a || b) ≡ false → (a ≡ false) × (b ≡ false)
or_false a b h = ground arith

-- A segment that does not end in the key is passed over.
pub search_from-skip :
    (k u rest : Text) (i : ℕ)
    → NoSlash k
    → NoSlash u
    → ends_with k u ≡ false
    → search_from (k ++ slash ∷ []) (u ++ slash ∷ rest) i
      ≡ search_from (k ++ slash ∷ []) rest (i + length u + 1)
unfolding search_from ends_with
search_from-skip k [] rest i hk hu e =
    rw (starts_with-segment k [] rest hk tt, e)
      (ap (search_from (k ++ slash ∷ []) rest) (omega arith))
search_from-skip k (c ∷ u) rest i hk hu e =
    let parts : (text_eq k (c ∷ u) ≡ false) × (ends_with k u ≡ false) = or_false _ _ e in
    rw (starts_with-segment k (c ∷ u) rest hk hu, parts.0)
      (search_from-skip k u rest (suc i) hk hu.1 parts.1
        ∙ ap (search_from (k ++ slash ∷ []) rest) (omega arith))

-- A segment equal to the key is found.
pub search_from-hit :
    (k rest : Text) (i : ℕ)
    → NoSlash k
    → search_from (k ++ slash ∷ []) (k ++ slash ∷ rest) i ≡ some i
unfolding search_from
search_from-hit [] rest i h = refl
search_from-hit (a ∷ k) rest i h =
    rw (starts_with-segment (a ∷ k) (a ∷ k) rest h h, text_eq_refl (a ∷ k))

text_eq-suffix : (k v : Text) (c : ℕ) → text_eq k (c ∷ v ++ k) ≡ false
text_eq-suffix k v c = elim (Bool-cases (text_eq k (c ∷ v ++ k))) [
  | inl e ↦ absurd (omega (arith, ap length (eq_of_text_eq _ _ e), length-append {0} v k))
  | inr e ↦ e
]

-- A segment that ends in the key is found at that suffix.
pub search_from-suffix :
    (k v rest : Text) (i : ℕ)
    → NoSlash k
    → NoSlash v
    → search_from (k ++ slash ∷ []) (v ++ (k ++ slash ∷ rest)) i ≡ some (i + length v)
unfolding search_from
search_from-suffix k [] rest i hk hv = search_from-hit k rest i hk ∙ ap some (omega arith)
search_from-suffix k (c ∷ v) rest i hk hv =
    rw (segment, text_eq-suffix k v c)
      (search_from-suffix k v rest (suc i) hk hv.1 ∙ ap some (omega arith))
  where
    segment :
        starts_with (k ++ slash ∷ []) (c ∷ (v ++ (k ++ slash ∷ rest))) ≡ text_eq k (c ∷ v ++ k)
    segment =
        rw append_assoc at
          (starts_with-segment k (c ∷ v ++ k) rest hk (All-append (λ x. x ≢ slash) (c ∷ v) k hv hk))

starts_with-last : (k u : Text) → NoSlash u → starts_with (k ++ slash ∷ []) u ≡ false
unfolding starts_with
starts_with-last [] [] h = refl
starts_with-last [] (c ∷ u) h = ground arith
starts_with-last (a ∷ k) [] h = refl
starts_with-last (a ∷ k) (c ∷ u) h = ground (arith, starts_with-last k u h.1)

-- The last segment holds no key that is followed by a slash.
pub search_from-last : (k u : Text) (i : ℕ) → NoSlash u → search_from (k ++ slash ∷ []) u i ≡ none
unfolding search_from starts_with
search_from-last [] [] i h = refl
search_from-last (a ∷ k) [] i h = refl
search_from-last k (c ∷ u) i h =
    rw (starts_with-last k (c ∷ u) h) (search_from-last k u (suc i) h.1)

-- The next slash after a segment.
pub search_from-slash :
    (u rest : Text) (i : ℕ)
    → NoSlash u
    → search_from (slash ∷ []) (u ++ slash ∷ rest) i ≡ some (i + length u)
unfolding search_from text_eq
search_from-slash [] rest i h = ap some (omega arith)
search_from-slash (c ∷ u) rest i h =
    rw (starts_with-segment [] (c ∷ u) rest tt h)
      (search_from-slash u rest (suc i) h.1 ∙ ap some (omega arith))

-- The find from the start of a segment stops at its end.
pub find-slash :
    (p u rest : Text)
    → NoSlash u
    → find (p ++ (u ++ slash ∷ rest)) (slash ∷ []) (length p) ≡ length p + length u
unfolding find position
find-slash p u rest h = rw (
  leb-eq_true (length p) (length (p ++ (u ++ slash ∷ rest)))
      (omega (arith, length-append {0} p (u ++ slash ∷ rest))),
  drop-length-append p (u ++ slash ∷ rest),
  search_from-slash u rest (length p) h,
)

pub find-slash_last : (p u : Text) → NoSlash u → find (p ++ u) (slash ∷ []) (length p) ≡ npos
unfolding find position
find-slash_last p u h = rw (
  leb-eq_true (length p) (length (p ++ u)) (omega (arith, length-append {0} p u)),
  drop-length-append p u,
  search_from-last [] u (length p) h,
)

pub substr-middle : (p u rest : Text) → substr (p ++ (u ++ rest)) (length p) (length u) ≡ ok u
unfolding substr
substr-middle p u rest = rw (
  leb-eq_true (length p) (length (p ++ (u ++ rest)))
      (omega (arith, length-append {0} p (u ++ rest))),
  drop-length-append p (u ++ rest),
  take-length-append u rest,
)

pub substr-rest : (p u : Text) → length u ≤ npos → substr (p ++ u) (length p) npos ≡ ok u
unfolding substr
substr-rest p u h = rw (
  leb-eq_true (length p) (length (p ++ u)) (omega (arith, length-append {0} p u)),
  drop-length-append p u,
  take-ge_length npos u h,
)

-- A key segment is found at its own start.
pub find-key :
    (q k rest : Text)
    → NoSlash k
    → find (q ++ (k ++ slash ∷ rest)) (k ++ slash ∷ []) (length q) ≡ length q
unfolding find position
find-key q k rest h = rw (
  leb-eq_true (length q) (length (q ++ (k ++ slash ∷ rest)))
      (omega (arith, length-append {0} q (k ++ slash ∷ rest))),
  drop-length-append q (k ++ slash ∷ rest),
  search_from-hit k rest (length q) h,
)
