-- ===== src/Kms/Software.antt =====
-- common/pkicore/pkicore/kms/software.py: keys in encrypted files.
use pkica.Base.{
  ℕ, zero, suc, ◌+◌, ◌*◌, ◌-◌, String, Bool, ◌&&◌, Option, none, some, List, [], ◌∷◌, ◌++◌, ◌==◌,
  leb, if◌then◌else◌,
}
use Prim.Native.Char.{code}
use Prim.Native.String.{◌++◌ as glue, [] as nil, ◌∷◌ as cons}
use pkica.Text.{split, strip}
use pkica.Text.Infix.{starts_with}
use pkica.Asn1.{Bytes}
use pkica.Effect.{Result, ok, err, and_then, value_error, outside, Exec, pure, lift, ◌>>=◌, ◌>>◌}
use pkica.Kms.{
  SignatureAlgorithm, KeySpec, rsa_pkcs1_sha256, rsa_pkcs1_sha384, rsa_pss_sha256, ecdsa_sha256,
  ecdsa_sha384,
}

pub data Curve : Type 0 where
  secp256r1 secp384r1 : Curve

pub data Digest : Type 0 where
  sha256 sha384 : Digest

pub data Padding : Type 0 where
  pss pkcs1v15 : Padding

-- The keys of `cryptography`, AESGCM with the master key, os.urandom, and the files; generation and random octets
-- are answered by the number of the call.
pub record SoftwareLib : Type 1 where
  pub PrivateKey : Type 0
  pub PublicKey : Type 0
  -- rsa.generate_private_key(public_exponent=65537, key_size): a ValueError for a size that is too small
  pub generate_rsa : ℕ → ℕ → Result PrivateKey
  pub generate_ec : Curve → ℕ → PrivateKey
  pub private_bytes : PrivateKey → Bytes
  pub load_pem_private_key : Bytes → Result PrivateKey
  pub public_key_of : PrivateKey → PublicKey
  -- isinstance(key, rsa.RSAPrivateKey)
  pub is_rsa : PrivateKey → Bool
  pub sign_rsa : PrivateKey → Bytes → Padding → Digest → Result Bytes
  pub sign_ec : PrivateKey → Bytes → Digest → Result Bytes
  -- nonce, octets, associated text
  pub encrypt : Bytes → Bytes → String → Result Bytes
  pub decrypt : Bytes → Bytes → String → Result Bytes
  pub urandom_at : ℕ → ℕ → Bytes
  -- pathlib: `self._path / name`, and the calls on a path, which fail with an OSError
  pub FilePath : Type 0
  pub Disk : Type 0
  pub child : String → FilePath
  pub write_bytes : FilePath → Bytes → Exec Disk (Unit {0})
  pub read_bytes : FilePath → Disk → Result Bytes
  pub exists : FilePath → Disk → Bool

unfoldable pub take : ℕ → Bytes → Bytes
take zero bytes = []
take (suc n) [] = []
take (suc n) (b ∷ bytes) = b ∷ take n bytes

unfoldable pub drop : ℕ → Bytes → Bytes
drop zero bytes = bytes
drop (suc n) [] = []
drop (suc n) (b ∷ bytes) = drop n bytes

abbrev digits_value : ℕ → String → Option ℕ
digits_value n nil = some n
digits_value n (cons d s) =
    let rest = digits_value (n * 10 + (code d - 48)) s in
    if leb 48 (code d) && leb (code d) 57 then rest else none

abbrev unsigned : String → Option ℕ
unsigned nil = none
unsigned (cons d s) = digits_value 0 (cons d s)

-- int(s) of a numeral without a sign or underscores
unfoldable pub int_of : String → Result ℕ
unfolding strip
int_of s = elim (unsigned (strip s)) [
  | some n ↦ ok n
  | none ↦ err (value_error "invalid literal for int() with base 10")
]

abbrev second : List String → Result String
second (_ ∷ s ∷ _) = ok s
second _ = err (outside "IndexError")

-- int(algorithm.split("_")[1])
unfoldable pub bits_of : String → Result ℕ
unfolding split int_of
bits_of algorithm = and_then (second (split b'_' algorithm)) int_of

-- ec.SECP256R1() if algorithm == "EC_P256" else ec.SECP384R1()
unfoldable pub curve_of : String → Curve
curve_of algorithm = if algorithm == "EC_P256" then secp256r1 else secp384r1

-- _DIGEST
unfoldable pub digest_of : SignatureAlgorithm → Digest
digest_of rsa_pkcs1_sha256 = sha256
digest_of rsa_pkcs1_sha384 = sha384
digest_of rsa_pss_sha256 = sha256
digest_of ecdsa_sha256 = sha256
digest_of ecdsa_sha384 = sha384

abbrev padding_of : SignatureAlgorithm → Padding
padding_of rsa_pss_sha256 = pss
padding_of _ = pkcs1v15

-- The files, and the number of calls.
pub record Store (lib : SoftwareLib) : Type 0 where
  pub disk : lib.Disk
  pub calls : ℕ

module _ (lib : SoftwareLib) where
  -- _key_file
  abbrev pub key_file : String → lib.FilePath
  key_file key_id = lib.child (glue key_id ".enc")

  unfoldable pub draw : {A : Type 0} → (ℕ → A) → Exec (Store lib) A
  draw source s = (ok (source s.calls), record s { calls = s.calls + 1 })

  unfoldable pub write_file : String → Bytes → Exec (Store lib) (Unit {0})
  write_file key_id blob s =
      let (outcome, disk) = lib.write_bytes (key_file key_id) blob s.disk in
      (outcome, record s { disk = disk })

  unfoldable pub read_file : String → Exec (Store lib) Bytes
  read_file key_id s = (lib.read_bytes (key_file key_id) s.disk, s)

  unfoldable pub generate : String → ℕ → Result lib.PrivateKey
  unfolding bits_of curve_of starts_with
  generate algorithm k =
      if starts_with "RSA" algorithm
      then and_then (bits_of algorithm) (λ bits. lib.generate_rsa bits k)
      else ok (lib.generate_ec (curve_of algorithm) k)

  unfoldable pub create_key : KeySpec → Exec (Store lib) String
  create_key spec = do
    made ← draw (generate spec.algorithm)
    key ← lift made
    nonce ← draw (lib.urandom_at 12)
    sealed ← lift (lib.encrypt nonce (lib.private_bytes key) spec.key_id)
    write_file spec.key_id (nonce ++ sealed)
    pure spec.key_id

  -- a key's file, opened
  unfoldable pub opened : String → Bytes → Result lib.PrivateKey
  unfolding take drop
  opened key_id blob =
      and_then (lib.decrypt (take 12 blob) (drop 12 blob) key_id) lib.load_pem_private_key

  unfoldable pub load_private : String → Exec (Store lib) lib.PrivateKey
  load_private key_id = do blob ← read_file key_id; lift (opened key_id blob)

  unfoldable pub public_key : String → Exec (Store lib) lib.PublicKey
  public_key key_id = do key ← load_private key_id; pure (lib.public_key_of key)

  unfoldable pub sign : String → Bytes → SignatureAlgorithm → Exec (Store lib) Bytes
  sign key_id bytes algorithm = do
    key ← load_private key_id
    lift (
        if lib.is_rsa key
        then lib.sign_rsa key bytes (padding_of algorithm) (digest_of algorithm)
        else lib.sign_ec key bytes (digest_of algorithm))

  unfoldable pub key_exists : String → Store lib → Bool
  key_exists key_id s = lib.exists (key_file key_id) s.disk
