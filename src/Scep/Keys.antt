-- ===== src/Scep/Keys.antt =====
-- services/scep/app/main.py: what the server calls, its state, and the RA's key pair on disk.
use Prim.Native.String.{◌++◌ as glue}
use pkica.Base.{ℕ, ◌+◌, ◌*◌, String, Bool, not, ◌&&◌, Option, some, is_none, if◌then◌else◌}
use pkica.Base.Int.{ℤ, pos, ◌+ℤ◌}
use pkica.Text.{text_length, repeat}
use pkica.Asn1.{Bytes}
use pkica.Effect.{Error, Result, ok, outside, Exec, lift, or_raise, ◌>>=◌, ◌>>◌}
use pkica.Ra.Http.{RaClient}
use pkica.Ra.Client.{CaClient}
use pkica.Acme.Jws.{padding_length}
use pkica.Cms.{CmsLib}
use pkica.Enrollment.{EnrollmentLib}
use pkica.Scep.Cms.{CipherLib}

-- The libraries, with the private keys of RSA, the clock and the random sources, which answer by the
-- number of the call.
pub record ScepLib : Type 1 where
  pub enrollment : EnrollmentLib
  pub cipher : CipherLib
  pub cms : CmsLib
  pub csr_key : enrollment.Csr → cipher.PublicKey
  pub PrivateKey : Type 0
  -- rsa.generate_private_key(public_exponent, key_size)
  pub generate_private_key : ℕ → ℕ → ℕ → PrivateKey
  -- PKCS8 in PEM, without encryption, and back
  pub private_bytes : PrivateKey → Bytes
  pub load_pem_private_key : Bytes → Result PrivateKey
  -- ra_private_key.decrypt and .sign, with the padding PKCS1v15
  pub decrypt : PrivateKey → Bytes → Result Bytes
  pub sign : PrivateKey → Bytes → Result Bytes
  -- the builder's certificate in PEM: name, serial number, begin and end
  pub self_signed : PrivateKey → String → ℕ → ℤ → ℤ → Bytes
  pub der_of_pem_bytes : Bytes → Result Bytes
  pub urlsafe_b64decode : String → Result Bytes
  pub uuid4_at : ℕ → ℕ
  pub now_at : ℕ → ℤ

-- The files of _RA_KEY_DIR, the services behind the server, and the number of calls of random sources
-- and clock.
pub record Server (ra : RaClient) (ca : CaClient) : Type 0 where
  pub ra_key : Option Bytes
  pub ra_crt : Option Bytes
  pub ra_state : ra.Remote
  pub ca_state : ca.Remote
  pub calls : ℕ

-- dt.timedelta(days=730), in microseconds
abbrev two_years : ℤ
two_years = pos (730 * 86400000000)

abbrev missing : Error
missing = outside "FileNotFoundError"

-- "x" + "=" * (-len(x) % 4)
unfoldable pub padded : String → String
unfolding padding_length text_length repeat
padded s = glue s (repeat "=" (padding_length (text_length s)))

module _ {ra : RaClient} {ca : CaClient} {A : Type 0} where
  unfoldable pub ask_ra : Exec ra.Remote A → Exec (Server ra ca) A
  ask_ra m s = let (r, state) = m s.ra_state in (r, record s { ra_state = state })

  unfoldable pub ask_ca : Exec ca.Remote A → Exec (Server ra ca) A
  ask_ca m s = let (r, state) = m s.ca_state in (r, record s { ca_state = state })

module _ {ra : RaClient} {ca : CaClient} where
  unfoldable pub read_file : (Server ra ca → Option Bytes) → Exec (Server ra ca) Bytes
  read_file file s = or_raise (file s) missing s

  -- one call of a random source
  unfoldable pub draw : {A : Type 0} → (ℕ → A) → Exec (Server ra ca) A
  draw source s = (ok (source s.calls), record s { calls = s.calls + 1 })

  abbrev pub has_both : Server ra ca → Bool
  has_both s = not (is_none s.ra_key) && not (is_none s.ra_crt)

  unfoldable pub write_key : Bytes → Exec (Server ra ca) (Unit {0})
  write_key bytes s = (ok tt, record s { ra_key = some bytes })

  unfoldable pub write_crt : Bytes → Exec (Server ra ca) (Unit {0})
  write_crt bytes s = (ok tt, record s { ra_crt = some bytes })

module _ (lib : ScepLib) {ra : RaClient} {ca : CaClient} where
  -- _ensure_ra_keypair, where a file is missing
  unfoldable pub new_keypair : Exec (Server ra ca) (Unit {0})
  new_keypair = do
    key ← draw (lib.generate_private_key 65537 3072)
    write_key (lib.private_bytes key)
    now ← draw lib.now_at
    serial ← draw lib.uuid4_at
    write_crt (lib.self_signed key "PKICA SCEP RA" serial now (now +ℤ two_years))

  unfoldable pub ensure_ra_keypair : Exec (Server ra ca) (Unit {0})
  ensure_ra_keypair s = if has_both s then (ok tt, s) else new_keypair s

  unfoldable pub load_ra_key : Exec (Server ra ca) lib.PrivateKey
  load_ra_key = do bytes ← read_file (λ s. s.ra_key); lift (lib.load_pem_private_key bytes)

  unfoldable pub load_ra_cert_der : Exec (Server ra ca) Bytes
  load_ra_cert_der = do bytes ← read_file (λ s. s.ra_crt); lift (lib.der_of_pem_bytes bytes)
