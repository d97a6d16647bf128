-- ===== src/Scep/Envelope.antt =====
-- services/scep/app/cms.py: a message that is encrypted and decrypted again.
use pkica.Base.{◌≡◌, refl}
use pkica.Text.Infix.{starts_with, is_within}
use pkica.Asn1.{Bytes}
use pkica.Effect.{Result, ok}
use pkica.Effect.Keeps.{and_then_returned}
use pkica.Cms.{CmsLib}
use pkica.Scep.Cms.{
  CipherLib, envelope, as_enveloped, encrypted_key_of, decryptor, block_size,
  decrypt_enveloped_data, build_enveloped_data,
}

-- Decryption undoes encryption with the same key and initial vector, unpadding undoes padding, and
-- loading undoes dumping for the messages that are built.
pub record IsInverse (lib : CipherLib) (cms : CmsLib) : Type 0 where
  pub aes :
      (key iv plain cipher : Bytes)
      → lib.aes_encrypt key iv plain ≡ ok cipher
      → lib.aes_decrypt key iv cipher ≡ ok plain
  pub unpad-pad : (plain : Bytes) → lib.unpad 128 (lib.pad 128 plain) ≡ ok plain
  pub load-dump :
      (cert : cms.Certificate) (iv sealed cipher : Bytes)
      → cms.load_content (cms.dump_content (envelope lib cms cert iv sealed cipher))
        ≡ ok (envelope lib cms cert iv sealed cipher)

module _ (lib : CipherLib) (cms : CmsLib) (laws : IsInverse lib cms) where
  opened :
      (cert : cms.Certificate) (key iv plain cipher encrypted_key : Bytes)
      (decrypt : Bytes → Result Bytes)
      → lib.aes_encrypt key iv (lib.pad 128 plain) ≡ ok cipher
      → decrypt encrypted_key ≡ ok key
      → decrypt_enveloped_data lib cms
          (cms.dump_content (envelope lib cms cert iv encrypted_key cipher))
          decrypt
        ≡ ok plain
  unfolding decrypt_enveloped_data as_enveloped encrypted_key_of decryptor block_size envelope
      is_within starts_with
  opened cert key iv plain cipher encrypted_key decrypt a d =
      rw (laws.load-dump cert iv encrypted_key cipher)
        (rw d (rw (laws.aes key iv (lib.pad 128 plain) cipher a) (rw (laws.unpad-pad plain) refl)))

-- A message that is built for a recipient is decrypted to the same octets by whoever's decryption
-- undoes the encryption with the recipient's key, whatever the key, the initial vector and the
-- certificate, when decryption undoes encryption, unpadding padding, and loading dumping.
pub decrypt_enveloped_data-build_enveloped_data :
    (lib : CipherLib) (cms : CmsLib) (key iv plain cert_der message : Bytes)
    (recipient : lib.PublicKey) (decrypt : Bytes → Result Bytes)
    → IsInverse lib cms
    → ((secret sealed : Bytes)
        → lib.rsa_encrypt recipient secret ≡ ok sealed
        → decrypt sealed ≡ ok secret)
    → build_enveloped_data lib cms key iv plain cert_der recipient ≡ ok message
    → decrypt_enveloped_data lib cms message decrypt ≡ ok plain
unfolding build_enveloped_data
decrypt_enveloped_data-build_enveloped_data lib cms key iv plain cert_der message recipient decrypt
      laws d h =
    let (cipher, a, h') = and_then_returned _ _ h in
    let (sealed, r, h'') = and_then_returned _ _ h' in
    let (cert, c, e) =
      and_then_returned (cms.load_certificate cert_der)
        (λ cert'. ok (cms.dump_content (envelope lib cms cert' iv sealed cipher))) h'' in
    let same : message ≡ cms.dump_content (envelope lib cms cert iv sealed cipher) = cc in
    rw same (opened lib cms laws cert key iv plain cipher sealed decrypt a (d key sealed r))
