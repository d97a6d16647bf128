-- ===== src/Est/Admission.antt =====
-- services/est/app/main.py: which requests reach the RA.
use Prim.Native.String.{[] as nil, ◌∷◌ as cons}
use pkica.Base.{
  String, ◌≡◌, refl, ap, ◌∙◌, Bool, true, false, ◌&&◌, List, [], ◌∷◌, All, arith, Bool-cases, inl,
  inr,
}
use pkica.Text.{upper_equals}
use pkica.Text.Infix.{starts_with, is_within}
use pkica.Asn1.{Bytes}
use pkica.Effect.{Result, continue, ok, err, Exec, pure, lift, raise_if, ◌>>=◌}
use pkica.Effect.Keeps.{
  Keeps, Keeps-pure, Keeps-bind, Keeps-lift, Keeps-or_raise, Keeps-raise_if, Keeps-after_lift,
  Keeps-after_raise_if, keeps_rules,
}
use pkica.Ra.Http.{RaClient}
use pkica.Ra.Client.{CaClient}
use pkica.Cms.{CmsLib}
use pkica.Enrollment.{EnrollmentLib, Behind, ask_ra, ask_ca}
use pkica.Est.Auth.{verify_basic_auth}
use pkica.Est.Server.{
  Request, get_cacerts, healthz, post_simpleenroll, post_simplereenroll, pkcs10_body_to_pem,
  profile_name, ra_submit, enroll, checked_csr, cacerts, simpleenroll, simplereenroll, handle,
}

abbrev is_ok : {A : Type 0} → Result A → Bool
is_ok (ok a) = true
is_ok (err e) = false

abbrev passes : {A : Type 0} → (A → Bool) → Result A → Bool
passes q (ok a) = q a
passes q (err e) = false

empty_within : (s : String) → is_within nil s ≡ true
unfolding is_within starts_with
empty_within nil = refl
empty_within (cons d s) = refl

module _ (lib : EnrollmentLib) (cms : CmsLib) (configured : String) where
  -- A request that may reach the RA: an enrollment with good credentials, or one through the gateway
  -- with a verified client certificate whose name occurs in the subject; its signature is valid.
  unfoldable pub is_admitted : Request → Bool
  is_admitted get_cacerts = false
  is_admitted healthz = false
  is_admitted (post_simpleenroll username password body) =
      is_ok (verify_basic_auth lib configured username password)
      && passes lib.is_signature_valid (lib.load_pem_x509_csr (pkcs10_body_to_pem lib cms body))
  is_admitted (post_simplereenroll h body) =
      upper_equals h.x_client_cert_verify "SUCCESS"
      && passes
          (λ csr. lib.is_signature_valid csr && is_within h.x_client_cert_cn (lib.subject csr))
          (lib.load_pem_x509_csr (pkcs10_body_to_pem lib cms body))

  module _ {ra : RaClient} {ca : CaClient} where
    unfoldable pub handle_all : List Request → Behind ra ca → Behind ra ca
    handle_all [] s = s
    handle_all (q ∷ qs) s = handle_all qs (handle lib cms configured q s).1

    abbrev SameRa : ra.Remote → Behind ra ca → Type 0
    SameRa state s = s.ra_state ≡ state

    Keeps-ask_ca :
        {A : Type 0} (state : ra.Remote) (m : Exec ca.Remote A) → Keeps (SameRa state) (ask_ca m)
    unfolding ask_ca
    Keeps-ask_ca state m = record { at = λ s h. h }

    after_loaded :
        {B : Type 0} (state : ra.Remote) (pem : String) (rest : lib.Csr → Exec (Behind ra ca) B)
        (loaded : Result lib.Csr) (s : Behind ra ca)
        → lib.load_pem_x509_csr pem ≡ loaded
        → ((csr : lib.Csr)
            → loaded ≡ ok csr
            → lib.is_signature_valid csr ≡ true
            → Keeps (SameRa state) (rest csr))
        → SameRa state s
        → SameRa state ((checked_csr lib cms configured pem >>= rest) s).1
    unfolding checked_csr ◌>>=◌ lift raise_if pure
    after_loaded state pem rest (err x) s e k h = rw e h
    after_loaded state pem rest (ok csr) s e k h = elim (Bool-cases (lib.is_signature_valid csr)) [
      | inl good ↦ rw e (rw good ((k csr refl good).at s h))
      | inr bad ↦ rw e (rw bad h)
    ]

    after_csr :
        {B : Type 0} (state : ra.Remote) (pem : String) (rest : lib.Csr → Exec (Behind ra ca) B)
        → ((csr : lib.Csr)
            → lib.load_pem_x509_csr pem ≡ ok csr
            → lib.is_signature_valid csr ≡ true
            → Keeps (SameRa state) (rest csr))
        → Keeps (SameRa state) (checked_csr lib cms configured pem >>= rest)
    after_csr state pem rest k = record {
      at = λ s h. after_loaded state pem rest (lib.load_pem_x509_csr pem) s refl k h;
    }

    handle-SameRa :
        (state : ra.Remote) (q : Request)
        → is_admitted q ≡ false
        → Keeps (SameRa state) (handle lib cms configured q)
    unfolding handle cacerts simpleenroll simplereenroll is_admitted
    handle-SameRa state get_cacerts h = search (keeps_rules, Keeps-ask_ca) depth 8
    handle-SameRa state healthz h = Keeps-pure "ok"
    handle-SameRa state (post_simpleenroll username password body) h =
        Keeps-after_lift _ _
          λ user e. after_csr state _ _ λ csr c valid. absurd (ground (arith, e, c, valid, h))
    handle-SameRa state (post_simplereenroll g body) h = Keeps-after_raise_if _ _ _ λ verified.
        after_csr state _ _ λ csr c valid.
          Keeps-after_raise_if _ _ _
            λ matches. absurd (ground (arith, verified, c, valid, matches, h))

    -- After any requests none of which has good credentials, or a verified client certificate whose
    -- name occurs in the request's subject, beside a valid signature, the RA is as it was.
    pub handle_all-SameRa :
        (qs : List Request) (s : Behind ra ca)
        → All (λ q. is_admitted q ≡ false) qs
        → (handle_all qs s).ra_state ≡ s.ra_state
    unfolding handle_all
    handle_all-SameRa [] s h = refl
    handle_all-SameRa (q ∷ qs) s h =
        handle_all-SameRa qs (handle lib cms configured q s).1 h.1
        ∙ (handle-SameRa s.ra_state q h.0).at s refl

    kept_after :
        {A B : Type 0} (outcome : Result A) (rest : A → Exec (Behind ra ca) B) (s : Behind ra ca)
        → ((a : A) → Keeps (SameRa s.ra_state) (rest a))
        → (continue outcome rest s).1.ra_state ≡ s.ra_state
    kept_after (ok a) rest s k = (k a).at s refl
    kept_after (err e) rest s k = refl

    bind_asked :
        {A B : Type 0} (m : Exec (Behind ra ca) A) (rest : A → Exec (Behind ra ca) B)
        (s : Behind ra ca)
        → ((a : A) (state : ra.Remote) → Keeps (SameRa state) (rest a))
        → ((m >>= rest) s).1.ra_state ≡ (m s).1.ra_state
    unfolding ◌>>=◌
    bind_asked m rest s k = kept_after (m s).0 rest (m s).1 (λ a. k a (m s).1.ra_state)

    -- An enrollment asks the RA once.
    enroll-asked :
        (requester pem : String) (s : Behind ra ca)
        → (enroll lib cms configured requester pem s).1.ra_state
          ≡ (ra.post_request profile_name "est" requester pem [] s.ra_state).1
    unfolding enroll ra_submit ask_ra
    enroll-asked requester pem s =
        bind_asked (ra_submit lib cms configured requester pem []) _ s
          (λ view state. Keeps-bind _ _ (Keeps-or_raise _ _) λ issued. Keeps-lift _)
        ∙ bind_asked (ask_ra (ra.post_request profile_name "est" requester pem [])) _ s
            (λ resp state. Keeps-bind _ _ (Keeps-raise_if _ _) λ go. Keeps-lift _)

    no_name-enrolls :
        (body : Bytes) (csr : lib.Csr) (s : Behind ra ca)
        → lib.load_pem_x509_csr (pkcs10_body_to_pem lib cms body) ≡ ok csr
        → lib.is_signature_valid csr ≡ true
        → simplereenroll lib cms configured
            (record { x_client_cert_verify = "SUCCESS"; x_client_cert_cn = "" })
            body
            s
          ≡ enroll lib cms configured "est-reenroll:" (pkcs10_body_to_pem lib cms body) s
    unfolding simplereenroll checked_csr ◌>>=◌ lift raise_if pure upper_equals
    no_name-enrolls body csr s loads valid =
        rw loads (rw valid (rw (empty_within (lib.subject csr)) refl))

    -- An empty name in the client certificate's header is found in every subject: with a verified
    -- certificate that has no common name, every request with a valid signature is sent to the RA, once,
    -- under the name `est-reenroll:`.
    pub simplereenroll-no_name :
        (body : Bytes) (csr : lib.Csr) (s : Behind ra ca)
        → lib.load_pem_x509_csr (pkcs10_body_to_pem lib cms body) ≡ ok csr
        → lib.is_signature_valid csr ≡ true
        → (simplereenroll lib cms configured
            (record { x_client_cert_verify = "SUCCESS"; x_client_cert_cn = "" })
            body
            s).1.ra_state
          ≡ (ra.post_request "est-device" "est" "est-reenroll:"
              (pkcs10_body_to_pem lib cms body)
              []
              s.ra_state).1
    simplereenroll-no_name body csr s loads valid =
        ap (λ r. r.1.ra_state) (no_name-enrolls body csr s loads valid)
        ∙ enroll-asked "est-reenroll:" (pkcs10_body_to_pem lib cms body) s
