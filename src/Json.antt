-- ===== src/Json.antt =====
-- The values of `json.loads`, and how Python's code takes them apart: `j["k"]`, `j.get("k", d)`, the
-- iteration over a value, and its truth.
use Prim.Native.String.{[], ◌∷◌}
use mathlib.Core.List.{List, [] as nil, ◌∷◌ as cons}
use pkica.Base.{zero, String, Bool, true, false, Option, none, some, ◌==◌, if◌then◌else◌}
use pkica.Base.Int.{ℤ}
use pkica.Effect.{Result, ok, err, key_error, attribute_error, outside}

mutual
  pub data Json : Type 0 where
    null : Json
    boolean : Bool → Json
    number : ℤ → Json
    text : String → Json
    array : Elements → Json
    object : Members → Json

  pub data Elements : Type 0 where
    none_left : Elements
    element : Json → Elements → Elements

  -- the entries of a dict, in its order; its keys are distinct
  pub data Members : Type 0 where
    no_more : Members
    entry : String → Json → Members → Members

unfoldable pub find_member : String → Members → Option Json
find_member k no_more = none
find_member k (entry k' v rest) =
    let further = find_member k rest in if k' == k then some v else further

abbrev or_key_error : String → Option Json → Result Json
or_key_error k none = err (key_error k)
or_key_error k (some v) = ok v

-- j[k]
unfoldable pub item : String → Json → Result Json
unfolding find_member
item k (object members) = or_key_error k (find_member k members)
item k _ = err (outside "TypeError")

abbrev or_default : Json → Option Json → Json
or_default d none = d
or_default d (some v) = v

-- j.get(k, d)
unfoldable pub get_or : String → Json → Json → Result Json
unfolding find_member
get_or k d (object members) = ok (or_default d (find_member k members))
get_or k d _ = err (attribute_error "get")

-- A value that is used as a text where another type is an error.
unfoldable pub as_text : Json → Result String
as_text (text s) = ok s
as_text _ = err (outside "TypeError")

abbrev characters : String → Elements
characters [] = none_left
characters (c ∷ s) = element (text (c ∷ [])) (characters s)

abbrev keys : Members → Elements
keys no_more = none_left
keys (entry k _ rest) = element (text k) (keys rest)

-- `for x in j`: an array's elements, a dict's keys, a text's characters
unfoldable pub iterate : Json → Result Elements
iterate (array xs) = ok xs
iterate (object members) = ok (keys members)
iterate (text s) = ok (characters s)
iterate _ = err (outside "TypeError")

abbrev pub nonempty : String → Bool
nonempty [] = false
nonempty (_ ∷ _) = true

abbrev nonzero : ℤ → Bool
nonzero (ℤ.pos zero) = false
nonzero _ = true

-- bool(j)
unfoldable pub is_truthy : Json → Bool
is_truthy null = false
is_truthy (boolean b) = b
is_truthy (number n) = nonzero n
is_truthy (text s) = nonempty s
is_truthy (array none_left) = false
is_truthy (object no_more) = false
is_truthy _ = true

abbrev texts_cons : Result String → Result (List String) → Result (List String)
texts_cons (ok s) (ok ss) = ok (cons s ss)
texts_cons (ok s) (err e) = err e
texts_cons (err e) _ = err e

-- the parts of `",".join(xs)`: a TypeError if one is no text
unfoldable pub texts : Elements → Result (List String)
unfolding as_text
texts none_left = ok nil
texts (element x xs) = texts_cons (as_text x) (texts xs)

-- A dict display, and a list display.
abbrev pub dict : List (String × Json) → Members
dict nil = no_more
dict (cons (k, v) rest) = entry k v (dict rest)

abbrev pub text_array : List String → Elements
text_array nil = none_left
text_array (cons s ss) = element (text s) (text_array ss)
