-- ===== src/Ca/Serials.antt =====
-- services/ca/app/service.py and common/pkicore/pkicore/crypto.py: the size of serial numbers.
use pkica.Base.{
  ℕ, zero, suc, ◌+◌, ◌*◌, ◌<◌, ◌≤◌, String, ◌≡◌, sym, ap, some, List, [], ◌∷◌, All, length, arith,
}
use mathlib.Core.List.{foldl}
use pkica.Base.Int.{ℤ, pos}
use pkica.Text.Hex.{int_hex}
use pkica.Text.Hex.RoundTrip.{int_hex-format_hex}
use pkica.Asn1.{Bytes}
use pkica.Effect.{Result, ok, err, pure, ◌>>=◌}
use pkica.Effect.Gives.{OfResult, Gives, Gives-bind, Gives-after, Gives-pure}
use pkica.Models.{CertProfile, Certificate}
use pkica.Platform.{Platform, World, urandom}
use pkica.Crypto.{from_bytes, generate_serial_number}
use pkica.Ca.Issue.{issue_certificate}

-- os.urandom(19) gives nineteen octets.
pub record GivesOctets (p : Platform) : Type 0 where
  pub octets : (k : ℕ) → All (λ b. b < 256) (p.urandom_at 19 k)
  pub length-urandom_at : (k : ℕ) → length (p.urandom_at 19 k) ≡ 19

-- One more than the number of `n` octets 255 behind `acc`.
abbrev bound : ℕ → ℕ → ℕ
bound acc zero = acc + 1
bound acc (suc n) = bound (acc * 256 + 255) n

bound_mono : (n a b : ℕ) → a ≤ b → bound a n ≤ bound b n
bound_mono zero a b h = omega arith
bound_mono (suc n) a b h = bound_mono n (a * 256 + 255) (b * 256 + 255) (omega arith)

read_below :
    (bytes : Bytes) (acc : ℕ)
    → All (λ b. b < 256) bytes
    → foldl (λ n b. n * 256 + b) acc bytes < bound acc (length bytes)
read_below [] acc h = omega arith
read_below (b ∷ bytes) acc h =
    let below = read_below bytes (acc * 256 + b) h.1 in
    let more : bound (acc * 256 + b) (length bytes) ≤ bound (acc * 256 + 255) (length bytes) =
      bound_mono (length bytes) (acc * 256 + b) (acc * 256 + 255) (omega (arith, h.0)) in
    omega arith

-- 2 ^ 152
abbrev pub serial_bound : ℕ
serial_bound = 5708990770823839524233143877797980545530986496

module _ (p : Platform) (random : GivesOctets p) where
  read_serial : (k : ℕ) → from_bytes (0 ∷ p.urandom_at 19 k) < serial_bound
  unfolding from_bytes
  read_serial k =
      let below = read_below (p.urandom_at 19 k) 0 (random.octets k) in
      let e : bound 0 (length (p.urandom_at 19 k)) ≡ serial_bound =
        ap (bound 0) (random.length-urandom_at k) in
      rw (sym e) below

  Gives-serial : Gives {S = World p} (λ n. n < serial_bound) (generate_serial_number p)
  unfolding generate_serial_number urandom ◌>>=◌ pure
  Gives-serial = record { gives = λ w. read_serial w.calls }

  abbrev Bounded : Certificate → Type 0
  Bounded c = (n : ℕ) × (int_hex c.serial_number ≡ some (pos n)) × (n < serial_bound)

  issue_certificate-Bounded :
      (secret ca_name : String) (profile : CertProfile) (csr_pem : String) (sans : List String)
      (days : ℤ) (requester : String)
      → Gives Bounded (issue_certificate p secret ca_name profile csr_pem sans days requester)
  unfolding issue_certificate
  issue_certificate-Bounded secret ca_name profile csr_pem sans days requester =
      Gives-after _ _ λ ca. Gives-after _ _ λ active. Gives-after _ _ λ csr.
        Gives-after _ _ λ permitted. Gives-after _ _ λ issuer. Gives-after _ _ λ subject.
          Gives-after _ _ λ start. Gives-after _ _ λ end.
            Gives-bind _ _ Gives-serial λ serial below. Gives-after _ _ λ aki.
              Gives-after _ _ λ extensions. Gives-after _ _ λ algorithm. Gives-after _ _ λ der.
                Gives-after _ _ λ pem. Gives-after _ _ λ id. Gives-after _ _ λ stored.
                  Gives-after _ _
                    λ recorded. Gives-pure _ (serial, int_hex-format_hex serial, below)

  returned :
      (outcome : Result Certificate) (c : Certificate)
      → OfResult Bounded outcome
      → outcome ≡ ok c
      → Bounded c
  returned (ok x) c h e = let same : x ≡ c = cc in rw (sym same) h
  returned (err x) c h e = absurd cc

  -- A certificate that is issued has a serial number below 2 ^ 152, which the CRL reads from its
  -- text, when 19 octets are drawn as 19 numbers below 256.
  pub issue_certificate-serial_bound :
      (secret ca_name : String) (profile : CertProfile) (csr_pem : String) (sans : List String)
      (days : ℤ) (requester : String) (w : World p) (c : Certificate)
      → (issue_certificate p secret ca_name profile csr_pem sans days requester w).0 ≡ ok c
      → (n : ℕ) × (int_hex c.serial_number ≡ some (pos n)) × (n < serial_bound)
  issue_certificate-serial_bound secret ca_name profile csr_pem sans days requester w c e =
      returned _ c
        ((issue_certificate-Bounded secret ca_name profile csr_pem sans days requester).gives w) e
