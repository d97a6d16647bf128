-- ===== src/Scep/Refusal.antt =====
-- services/scep/app/main.py: messages that `_handle_pki_operation` refuses.
use pkica.Base.{◌≡◌, refl, Bool, false, some}
use pkica.Asn1.{Bytes}
use pkica.Effect.{Error, Result, ok, err, http_exception, or_raise, lift, raise_if, ◌>>=◌}
use pkica.Ra.Http.{RaClient}
use pkica.Ra.Client.{CaClient}
use pkica.Enrollment.{csr_pem_of}
use pkica.Scep.Keys.{ScepLib, Server, read_file, load_ra_key}
use pkica.Scep.Server.{malformed, pkcs10_of, handle_pki_operation}

abbrev passes : {A : Type 0} → (A → Bool) → Result A → Bool
passes q (ok a) = q a
passes q (err e) = false

module _ (lib : ScepLib) where
  -- The message holds a request whose signature is valid, under encryption for the key.
  unfoldable pub is_signed : lib.PrivateKey → Bytes → Bool
  is_signed key der =
      passes
        (λ request.
          passes lib.enrollment.is_signature_valid
            (lib.enrollment.load_pem_x509_csr (csr_pem_of lib.enrollment request)))
        (pkcs10_of lib key der)

  module _ {ra : RaClient} {ca : CaClient} (s : Server ra ca) (bytes : Bytes) (key : lib.PrivateKey)
      (stored : s.ra_key ≡ some bytes) (loads : lib.load_pem_private_key bytes ≡ ok key) where
    loaded : load_ra_key lib s ≡ (ok key, s)
    unfolding load_ra_key ◌>>=◌ read_file or_raise lift
    loaded = rw stored (rw loads refl)

    undecrypted :
        (der : Bytes) (e : Error)
        → pkcs10_of lib key der ≡ err e
        → handle_pki_operation lib der s ≡ (err (malformed e), s)
    unfolding handle_pki_operation ◌>>=◌ lift
    undecrypted der e h = rw loaded (rw h refl)

    unreadable :
        (der request : Bytes) (e : Error)
        → pkcs10_of lib key der ≡ ok request
        → lib.enrollment.load_pem_x509_csr (csr_pem_of lib.enrollment request) ≡ err e
        → handle_pki_operation lib der s ≡ (err e, s)
    unfolding handle_pki_operation ◌>>=◌ lift
    unreadable der request e h k = rw loaded (rw h (rw k refl))

    unsigned :
        (der request : Bytes) (csr : lib.enrollment.Csr)
        → pkcs10_of lib key der ≡ ok request
        → lib.enrollment.load_pem_x509_csr (csr_pem_of lib.enrollment request) ≡ ok csr
        → lib.enrollment.is_signature_valid csr ≡ false
        → handle_pki_operation lib der s
          ≡ (err (http_exception 400 "Invalid CSR signature inside SCEP request"), s)
    unfolding handle_pki_operation ◌>>=◌ lift raise_if
    unsigned der request csr h k bad = rw loaded (rw h (rw k (rw bad refl)))

    by_request :
        (der request : Bytes) (r : Result lib.enrollment.Csr)
        → pkcs10_of lib key der ≡ ok request
        → lib.enrollment.load_pem_x509_csr (csr_pem_of lib.enrollment request) ≡ r
        → passes lib.enrollment.is_signature_valid r ≡ false
        → (e : Error) × (handle_pki_operation lib der s ≡ (err e, s))
    by_request der request (err e) h k bad = (e, unreadable der request e h k)
    by_request der request (ok csr) h k bad = (_, unsigned der request csr h k bad)

    by_content :
        (der : Bytes) (r : Result Bytes)
        → pkcs10_of lib key der ≡ r
        → passes
            (λ request.
              passes lib.enrollment.is_signature_valid
                (lib.enrollment.load_pem_x509_csr (csr_pem_of lib.enrollment request)))
            r
          ≡ false
        → (e : Error) × (handle_pki_operation lib der s ≡ (err e, s))
    by_content der (err e) h bad = (malformed e, undecrypted der e h)
    by_content der (ok request) h bad =
        by_request der request
          (lib.enrollment.load_pem_x509_csr (csr_pem_of lib.enrollment request)) h refl bad

-- A message that is not encrypted for the server's key, or holds no request with a valid signature, is
-- answered with an error and changes nothing: neither the RA nor the CA is asked.
pub handle_pki_operation-refused :
    (lib : ScepLib) (ra : RaClient) (ca : CaClient) (s : Server ra ca) (bytes der : Bytes)
    (key : lib.PrivateKey)
    → s.ra_key ≡ some bytes
    → lib.load_pem_private_key bytes ≡ ok key
    → is_signed lib key der ≡ false
    → (e : Error) × (handle_pki_operation lib der s ≡ (err e, s))
unfolding is_signed
handle_pki_operation-refused lib ra ca s bytes der key stored loads bad =
    by_content lib s bytes key stored loads der (pkcs10_of lib key der) refl bad
