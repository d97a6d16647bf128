-- ===== src/Ca/Subjects.antt =====
-- services/ca/app/service.py: the subject names that the CA reads from its table and from a request.
use Prim.Native.Char.{code}
use Prim.Native.String.{[], ◌∷◌}
use mathlib.Core.List.{[] as nil, ◌∷◌ as cons, ◌++◌}
use pkica.Base.{String, ◌&&◌, Option, none, some, List, eqb, ◌==◌, if◌then◌else◌}
use pkica.Text.{contains, before, after, strip, prepend, upper_equals}
use pkica.Effect.{Result}
use pkica.Platform.{Platform}
use pkica.Crypto.{name_from_attributes}

-- human_friendly_dn.split(", ")
unfoldable pub split_comma_space : String → List String
split_comma_space [] = cons [] nil
split_comma_space (c ∷ []) = cons (c ∷ []) nil
split_comma_space (c ∷ d ∷ s) =
    let after_separator = split_comma_space s in
    let further = split_comma_space (d ∷ s) in
    if eqb (code c) b',' && eqb (code d) b' ' then cons [] after_separator else prepend c further

-- `reverse.get(k.strip().upper())`
unfoldable pub attribute_key : String → Option String
unfolding strip upper_equals
attribute_key k =
    let key = strip k in
    if upper_equals key "CN"
    then some "cn"
    else if upper_equals key "O"
    then some "o"
    else if upper_equals key "OU"
    then some "ou"
    else if upper_equals key "C"
    then some "c"
    else if upper_equals key "ST"
    then some "st"
    else if upper_equals key "L"
    then some "l"
    else if upper_equals key "E"
    then some "email"
    else none

-- attrs[key] = value: a key that is there keeps its place in the dict.
unfoldable pub put : String → String → List (String × String) → List (String × String)
put key value nil = cons (key, value) nil
put key value (cons (k, v) attrs) =
    let rest = put key value attrs in if k == key then cons (key, value) attrs else cons (k, v) rest

-- One part of the text: what has no "=" or an unknown key is passed over.
unfoldable pub read_part : String → List (String × String) → List (String × String)
unfolding contains before after strip attribute_key put
read_part part attrs =
    if contains b'=' part
    then elim (attribute_key (before b'=' part)) [
      | none ↦ attrs
      | some key ↦ put key (strip (after b'=' part)) attrs
    ]
    else attrs

unfoldable pub read_parts : List String → List (String × String) → List (String × String)
unfolding read_part
read_parts nil attrs = attrs
read_parts (cons part parts) attrs = read_parts parts (read_part part attrs)

-- _dn_string_to_attrs
unfoldable pub dn_string_to_attrs : String → List (String × String)
unfolding split_comma_space read_parts
dn_string_to_attrs human_friendly_dn = read_parts (split_comma_space human_friendly_dn) nil

-- The first value of an attribute, if there is one.
unfoldable pub first_value : (p : Platform) → p.Csr → String → String → List (String × String)
first_value p csr oid key = elim (p.attributes_for_oid csr oid) [
  | nil ↦ nil
  | cons v vs ↦ cons (key, v) nil
]

unfoldable pub csr_attributes : (p : Platform) → p.Csr → List (String × String)
unfolding first_value
csr_attributes p csr =
    first_value p csr "2.5.4.3" "cn"
    ++ first_value p csr "2.5.4.10" "o"
    ++ first_value p csr "2.5.4.11" "ou"
    ++ first_value p csr "2.5.4.6" "c"
    ++ first_value p csr "2.5.4.8" "st"
    ++ first_value p csr "2.5.4.7" "l"

-- _name_from_csr
unfoldable pub name_from_csr : (p : Platform) → p.Csr → Result p.Name
unfolding csr_attributes
name_from_csr p csr = name_from_attributes p (csr_attributes p csr)
