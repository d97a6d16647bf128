-- ===== src/Crypto/Names.antt =====
-- common/pkicore/pkicore/crypto.py: the algorithms of signatures and distinguished names.
use pkica.Base.{String, Option, none, some, List, [], ◌∷◌, leb, ◌==◌, if◌then◌else◌}
use pkica.Effect.{Result, ok, err, value_error}
use pkica.Kms.{
  SignatureAlgorithm, rsa_pkcs1_sha256, rsa_pkcs1_sha384, rsa_pss_sha256, ecdsa_sha256,
  ecdsa_sha384,
}
use pkica.Platform.{Platform, rsa, ec, other, KeyKind}

-- _SIGNED_DIGEST_ALGO_ID
unfoldable pub signed_digest_algo_id : SignatureAlgorithm → String
signed_digest_algo_id rsa_pkcs1_sha256 = "sha256_rsa"
signed_digest_algo_id rsa_pkcs1_sha384 = "sha384_rsa"
signed_digest_algo_id rsa_pss_sha256 = "sha256_rsa_pss"
signed_digest_algo_id ecdsa_sha256 = "sha256_ecdsa"
signed_digest_algo_id ecdsa_sha384 = "sha384_ecdsa"

unfoldable pub default_algorithm : KeyKind → Result SignatureAlgorithm
default_algorithm (rsa key_size) =
    ok (if leb key_size 3072 then rsa_pkcs1_sha256 else rsa_pkcs1_sha384)
default_algorithm (ec curve) = ok (if curve == "secp384r1" then ecdsa_sha384 else ecdsa_sha256)
default_algorithm other = err (value_error "Unsupported public key type")

unfoldable pub default_algorithm_for_public_key :
    (p : Platform) → p.PublicKey → Result SignatureAlgorithm
unfolding default_algorithm
default_algorithm_for_public_key p public_key = default_algorithm (p.key_kind public_key)

-- The mapping of `name_from_attributes`.
unfoldable pub attribute_type : String → Option String
attribute_type k =
    if k == "cn"
    then some "common_name"
    else if k == "o"
    then some "organization_name"
    else if k == "ou"
    then some "organizational_unit_name"
    else if k == "c"
    then some "country_name"
    else if k == "st"
    then some "state_or_province_name"
    else if k == "l"
    then some "locality_name"
    else if k == "email"
    then some "email_address"
    else if k == "serial_number"
    then some "serial_number"
    else none

-- `{mapping[k]: v for k, v in attrs.items() if k in mapping and v}`, for a dict as the list of its
-- items in the order of insertion.
unfoldable pub ordered_attributes : List (String × String) → List (String × String)
unfolding attribute_type
ordered_attributes [] = []
ordered_attributes ((k, v) ∷ attrs) =
    let rest = ordered_attributes attrs in
    elim (attribute_type k) [ none ↦ rest | some t ↦ if v == "" then rest else (t, v) ∷ rest ]

unfoldable pub name_from_attributes : (p : Platform) → List (String × String) → Result p.Name
unfolding ordered_attributes
name_from_attributes p attrs = p.name_build (ordered_attributes attrs)
