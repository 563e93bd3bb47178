-- ===== src/Tests/Tree.antt =====
-- A JSON library over trees, in which text is neither read nor written: its members are assignments
-- in the order in which they are made.
use ibmiotf_cpp.Base.{
  ℕ, zero, suc, ℤ, pos, refl, Bool, true, false, List, [], ◌∷◌, none, Result, ok, err, json_error,
  if◌then◌else◌,
}
use ibmiotf_cpp.Text.{Text, text_eq, text_eq_refl}
use ibmiotf_cpp.Json.{JsonLib}

pub data Tree : Type 0 where
  tree_null empty_array : Tree
  tree_text : Text → Tree
  tree_int : ℤ → Tree
  tree_boolean : Bool → Tree
  tree_double : ℕ → Tree
  item : Tree → Tree → Tree
  member : Tree → Text → Tree → Tree

abbrev tree_array : List Tree → Tree
tree_array [] = empty_array
tree_array (v ∷ l) = item v (tree_array l)

abbrev is_object : Tree → Bool
is_object tree_null = true
is_object (member _ _ _) = true
is_object _ = false

abbrev is_tree_null : Tree → Bool
is_tree_null tree_null = true
is_tree_null _ = false

abbrev get_member : Tree → Text → Tree → Result Tree
get_member tree_null k d = ok d
get_member (member v j x) k d = let rest = get_member v k d in if text_eq j k then ok x else rest
get_member _ k d = err json_error

abbrev get_item : Tree → ℕ → Tree → Result Tree
get_item tree_null n d = ok d
get_item empty_array n d = ok d
get_item (item v l) zero d = ok v
get_item (item v l) (suc n) d = get_item l n d
get_item _ n d = err json_error

abbrev tree_as_text : Tree → Result Text
tree_as_text (tree_text t) = ok t
tree_as_text tree_null = ok []
tree_as_text _ = err json_error

abbrev tree_as_int : Tree → Result ℤ
tree_as_int (tree_int i) = ok i
tree_as_int tree_null = ok (pos 0)
tree_as_int _ = err json_error

abbrev tree_as_double : Tree → Result ℕ
tree_as_double (tree_double x) = ok x
tree_as_double tree_null = ok 0
tree_as_double _ = err json_error

abbrev pub trees : JsonLib
trees = record {
  Value = Tree;
  Double = ℕ;
  zero_double = 0;
  null = tree_null;
  string = tree_text;
  int = tree_int;
  boolean = tree_boolean;
  double = tree_double;
  array = tree_array;
  has_members = is_object;
  is_null = is_tree_null;
  get = get_member;
  get_index = get_item;
  set = member;
  as_string = tree_as_text;
  as_int = tree_as_int;
  as_double = tree_as_double;
  parse = λ _. none;
  write = λ _. [];
  has_members-null = refl;
  has_members-set = λ v k x. refl;
  get-null = λ k d. refl;
  get-set_self = λ v k x d h. rw (text_eq_refl k);
  get-set_ne = λ v k j x d h e. rw e;
  as_string-string = λ s. refl;
  as_int-int = λ i. refl;
  as_double-double = λ x. refl;
}
