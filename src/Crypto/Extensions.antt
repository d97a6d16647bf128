-- ===== src/Crypto/Extensions.antt =====
-- common/pkicore/pkicore/crypto.py: the extensions of a certificate.
use Prim.Native.String.{◌++◌ as glue}
use pkica.Text.{before, after}
use pkica.Base.{
  String, Bool, true, false, ◌&&◌, Option, none, some, List, [], ◌∷◌, ◌++◌, map, is_empty, ◌==◌,
  if◌then◌else◌,
}
use pkica.Base.Int.{ℤ}
use pkica.Effect.{Result, ok, err, value_error, and_then}
use pkica.Asn1.{
  Bytes, GeneralName, dns_name, rfc822_name, uniform_resource_identifier, ip_address, ocsp,
  ca_issuers, Extension, ExtnValue, basic_constraints, key_usage, extended_key_usage,
  subject_alt_name, key_identifier, authority_key_identifier, authority_information_access,
  AccessMethod,
}
use pkica.Platform.{Platform}

-- The dataclass ExtensionSpec; the set `key_usage` is a list of its members.
pub record ExtensionSpec : Type 0 where
  pub is_ca : Bool
  pub path_len : Option ℤ
  pub key_usages : List String
  pub extended_key_usages : List String
  pub subject_alt_names : List String
  pub crl_distribution_points : List String
  pub ocsp_urls : List String
  pub ca_issuer_urls : List String
  pub subject_key_id : Option Bytes
  pub authority_key_id : Option Bytes

-- ExtensionSpec()
abbrev pub default_spec : ExtensionSpec
default_spec = record {
  is_ca = false;
  path_len = none;
  key_usages = [];
  extended_key_usages = [];
  subject_alt_names = [];
  crl_distribution_points = [];
  ocsp_urls = [];
  ca_issuer_urls = [];
  subject_key_id = none;
  authority_key_id = none;
}

-- `_EKU_OID.get(u, u)`
unfoldable pub eku_oid : String → String
eku_oid u =
    if u == "server_auth"
    then "1.3.6.1.5.5.7.3.1"
    else if u == "client_auth"
    then "1.3.6.1.5.5.7.3.2"
    else if u == "code_signing"
    then "1.3.6.1.5.5.7.3.3"
    else if u == "email_protection"
    then "1.3.6.1.5.5.7.3.4"
    else if u == "ocsp_signing"
    then "1.3.6.1.5.5.7.3.9"
    else u

-- One turn of the loop of `_general_names`.
unfoldable pub general_name : Platform → String → Result GeneralName
unfolding before after
general_name p entry =
    let kind = before b':' entry in
    let value = after b':' entry in
    if kind == "dns"
    then ok (dns_name value)
    else if kind == "ip"
    then and_then (p.ip_packed value) (λ packed. ok (ip_address packed))
    else if kind == "email"
    then ok (rfc822_name value)
    else if kind == "uri"
    then ok (uniform_resource_identifier value)
    else err (value_error "Unsupported SAN entry")

unfoldable pub general_names : Platform → List String → Result (List GeneralName)
unfolding general_name
general_names p [] = ok []
general_names p (entry ∷ entries) =
    let rest = general_names p entries in
    and_then (general_name p entry) (λ name. and_then rest (λ names. ok (name ∷ names)))

abbrev extension : Bool → ExtnValue → Extension
extension critical v = record { critical = critical; extn_value = v }

-- `if spec.subject_key_id:`: absent and empty bytes are both false
abbrev of_bytes : (Bytes → ExtnValue) → Option Bytes → List Extension
of_bytes f none = []
of_bytes f (some b) = if is_empty b then [] else extension false (f b) ∷ []

unfoldable pub key_usage_extension : Platform → List String → Result (List Extension)
key_usage_extension p usages =
    if is_empty usages
    then ok []
    else and_then (p.key_usage_bits usages) (λ bits. ok (extension true (key_usage bits) ∷ []))

unfoldable pub subject_alt_name_extension : Platform → List String → Result (List Extension)
unfolding general_names
subject_alt_name_extension p entries =
    if is_empty entries
    then ok []
    else and_then (general_names p entries)
        (λ names. ok (extension false (subject_alt_name names) ∷ []))

unfoldable pub distribution_points : Platform → List String → Result (List (List GeneralName))
unfolding general_names
distribution_points p [] = ok []
distribution_points p (u ∷ us) =
    let rest = distribution_points p us in
    and_then (general_names p (glue "uri:" u ∷ []))
      (λ location. and_then rest (λ points. ok (location ∷ points)))

unfoldable pub crl_extension : Platform → List String → Result (List Extension)
unfolding distribution_points
crl_extension p urls =
    if is_empty urls
    then ok []
    else and_then (distribution_points p urls)
        (λ points. ok (extension false (ExtnValue.crl_distribution_points points) ∷ []))

abbrev access : AccessMethod → String → AccessMethod × GeneralName
access method u = (method, uniform_resource_identifier u)

unfoldable pub access_extension : List String → List String → List Extension
access_extension ocsp_urls ca_issuer_urls =
    if is_empty ocsp_urls && is_empty ca_issuer_urls
    then []
    else extension false (
        authority_information_access
          (map (access ocsp) ocsp_urls ++ map (access ca_issuers) ca_issuer_urls))
      ∷ []

unfoldable pub build_extensions : Platform → ExtensionSpec → Result (List Extension)
unfolding key_usage_extension subject_alt_name_extension crl_extension access_extension eku_oid
build_extensions p spec = and_then (key_usage_extension p spec.key_usages) λ usage.
    and_then (subject_alt_name_extension p spec.subject_alt_names) λ names.
      and_then (crl_extension p spec.crl_distribution_points) λ points. ok (
        extension true (basic_constraints spec.is_ca spec.path_len) ∷ usage
        ++ (if is_empty spec.extended_key_usages
            then []
            else extension false (extended_key_usage (map eku_oid spec.extended_key_usages)) ∷ [])
        ++ names
        ++ of_bytes key_identifier spec.subject_key_id
        ++ of_bytes authority_key_identifier spec.authority_key_id
        ++ points
        ++ access_extension spec.ocsp_urls spec.ca_issuer_urls)
