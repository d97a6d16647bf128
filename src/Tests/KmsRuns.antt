-- ===== src/Tests/KmsRuns.antt =====
-- The theorem on the software key store at a concrete input.
use pkica.Base.{
  ℕ, ◌+◌, String, ◌≡◌, ◌↔◌, refl, sym, ap, ◌∙◌, true, false, none, some, List, [], ◌∷◌, ◌==◌,
  if◌then◌else◌, eq_refl, eq_iff, arith, Bool-cases, inl, inr,
}
use Prim.Native.Char.{Char}
use Prim.Native.String.{◌++◌ as glue, [] as nil, ◌∷◌ as cons}
use Prim.Native.String.append
use pkica.Text.{text_length, contains}
use pkica.Text.Segments.{text_length-append}
use pkica.Asn1.{Bytes}
use pkica.Effect.{Result, ok, err, outside, pure, lift, ◌>>=◌}
use pkica.Kms.{KeySpec}
use pkica.Kms.Software.{SoftwareLib, Store, generate, create_key, load_private, draw, write_file}
use pkica.Kms.Custody.{IsCustodian, create_key-load_private}
use pkica.Text.{lower}
use pkica.Kms.Factory.{
  Adapter, KmsSettings, software, build_kms_backend, backend_named, software_backend, software_init,
  set_master,
}
use pkica.Kms.OptIn.{IsOptedIn, build_kms_backend-iff-IsOptedIn}

abbrev first_octet : Bytes → ℕ
first_octet [] = 0
first_octet (b ∷ _) = b

-- A directory: the files by their paths, the last one written first.
file_of : String → List (String × Bytes) → Result Bytes
file_of path [] = err (outside "FileNotFoundError")
file_of path ((p, blob) ∷ files) =
    let further = file_of path files in if p == path then ok blob else further

newest :
    (path : String) (blob : Bytes) (files : List (String × Bytes))
    → file_of path ((path, blob) ∷ files) ≡ ok blob
unfolding file_of
newest path blob files = rw (eq_refl path) refl

older :
    (path other : String) (blob : Bytes) (files : List (String × Bytes))
    → (path == other) ≡ false
    → file_of other ((path, blob) ∷ files) ≡ file_of other files
unfolding file_of
older path other blob files h = rw h refl

longer : (d : Char) (x : String) → glue nil ".enc" ≡ glue (cons d x) ".enc" → ⊥
unfolding text_length
longer d x h =
    let lengths : text_length (glue nil ".enc") ≡ text_length (glue (cons d x) ".enc") =
      ap text_length h in
    let short = text_length-append nil ".enc" in
    let long = text_length-append (cons d x) ".enc" in omega arith

-- Names that are followed by the same suffix are the same.
same_name : (x y : String) → glue x ".enc" ≡ glue y ".enc" → x ≡ y
same_name nil nil h = refl
same_name nil (cons d y) h = absurd (longer d y h)
same_name (cons c x) nil h = absurd (longer c x (sym h))
same_name (cons c x) (cons d y) h =
    let both : cons c (glue x ".enc") ≡ cons d (glue y ".enc") =
      sym (append.cons c x ".enc") ∙ h ∙ append.cons d y ".enc" in
    let rest : glue x ".enc" ≡ glue y ".enc" = cc in
    let head : c ≡ d = cc in let tail : x ≡ y = same_name x y rest in cc

other_path : (a b : String) → (a == b) ≡ false → (glue a ".enc" == glue b ".enc") ≡ false
other_path a b h = elim (Bool-cases (glue a ".enc" == glue b ".enc")) [
  | inr differs ↦ differs
  | inl same ↦
      let e : a ≡ b =
        same_name a b (ground (arith, eq_iff (glue a ".enc") (glue b ".enc"), same)) in
      absurd (ground (arith, eq_iff a b, e, h))
]

-- Keys are numbers, written in one octet, and octets are encrypted to themselves.
abbrev test_keys : SoftwareLib
test_keys = record {
  PrivateKey = ℕ;
  PublicKey = ℕ;
  generate_rsa = λ bits k. ok (bits + k);
  generate_ec = λ curve k. k;
  private_bytes = λ key. key ∷ [];
  load_pem_private_key = λ bytes. ok (first_octet bytes);
  public_key_of = λ key. key;
  is_rsa = λ key. true;
  sign_rsa = λ key bytes padding digest. ok bytes;
  sign_ec = λ key bytes digest. ok bytes;
  encrypt = λ nonce bytes key_id. ok bytes;
  decrypt = λ nonce bytes key_id. ok bytes;
  urandom_at = λ n k. k ∷ 0 ∷ 0 ∷ 0 ∷ 0 ∷ 0 ∷ 0 ∷ 0 ∷ 0 ∷ 0 ∷ 0 ∷ 0 ∷ [];
  FilePath = String;
  Disk = List (String × Bytes);
  child = λ name. name;
  write_bytes = λ path blob files. (ok tt, (path, blob) ∷ files);
  read_bytes = file_of;
  exists = λ path files. true;
}

test_keys-IsCustodian : IsCustodian test_keys
test_keys-IsCustodian = record {
  decrypt-encrypt = λ nonce bytes sealed key_id e. sym e;
  load-private_bytes = λ key. refl;
  length-urandom_at = λ k. refl;
  read-write = λ path bytes disk wrote. newest path bytes disk;
  read_other-write = λ a b bytes disk one other differs.
      older (glue a ".enc") (glue b ".enc") bytes disk (other_path a b differs);
}

abbrev root_spec : KeySpec
root_spec = record { key_id = "ca-root"; algorithm = "EC_P384"; label = "root" }

abbrev empty_store : Store test_keys
empty_store = record { disk = []; calls = 4 }

-- the store behind the creation: the nonce, and the key in one octet
abbrev keyed_store : Store test_keys
keyed_store = record {
  disk = (glue "ca-root" ".enc", 5 ∷ 0 ∷ 0 ∷ 0 ∷ 0 ∷ 0 ∷ 0 ∷ 0 ∷ 0 ∷ 0 ∷ 0 ∷ 0 ∷ 4 ∷ []) ∷ [];
  calls = 6;
}

create_key-load_private_example :
    ◌≡◌ {A = String} "ca-root" "ca-root"
    × (key : ℕ) × (generate test_keys "EC_P384" 4 ≡ ok key)
    × (load_private test_keys "ca-root" keyed_store ≡ (ok key, keyed_store))
    × ((load_private test_keys "ca-issuing" keyed_store).0
        ≡ (load_private test_keys "ca-issuing" empty_store).0)
create_key-load_private_example =
    create_key-load_private test_keys root_spec empty_store keyed_store "ca-root" "ca-issuing"
      test_keys-IsCustodian (unfold create_key generate draw write_file pure ◌>>=◌ lift in refl)
      (unfold contains in refl) (unfold contains in refl) refl

-- every adapter is out of reach
abbrev no_adapter : Adapter → Result ℕ
no_adapter a = err (outside "unreachable")

abbrev key_from : String → Result Bytes
key_from text = ok (1 ∷ [])

abbrev made_directory : String → Result (Unit {0})
made_directory path = ok tt

abbrev dev_settings : KmsSettings
dev_settings = record {
  ca_key_backend = "Software";
  allow_software_kms = true;
  aws_region = none;
  azure_key_vault_url = none;
  gcp_project_id = none;
  gcp_location = none;
  gcp_kms_key_ring = none;
  vault_addr = none;
  vault_token = none;
  vault_transit_mount = "transit";
  pkcs11_module_path = none;
  pkcs11_slot = none;
  pkcs11_pin = none;
  software_variable = some "TRUE";
  master_variable = some "a2V5";
}

build_kms_backend-iff-IsOptedIn_example :
    (build_kms_backend no_adapter key_from made_directory dev_settings
      ≡ ok (software "/data/software-kms" (1 ∷ [])))
    ↔ ((text : String) × IsOptedIn dev_settings text
        × (key_from text ≡ ok (1 ∷ []))
        × (made_directory "/data/software-kms" ≡ ok tt)
        × ◌≡◌ {A = String} "/data/software-kms" "/data/software-kms")
build_kms_backend-iff-IsOptedIn_example =
    build_kms_backend-iff-IsOptedIn no_adapter key_from made_directory dev_settings
      "/data/software-kms" (1 ∷ [])

software_is_built :
    build_kms_backend no_adapter key_from made_directory dev_settings
    ≡ ok (software "/data/software-kms" (1 ∷ []))
unfolding build_kms_backend backend_named software_backend software_init set_master lower
software_is_built = refl
