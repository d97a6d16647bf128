-- ===== src/Est/Pkcs7.antt =====
-- services/est/app/pkcs7.py: the message that carries certificates and no signature.
use pkica.Base.{none, List, [], ◌∷◌}
use pkica.Asn1.{Bytes}
use pkica.Effect.{Result, ok, and_then}
use pkica.Cms.{CmsLib, SignedData, signed_data}

module _ (cms : CmsLib) where
  -- [a_x509.Certificate.load(der) for der in certificates_der]
  unfoldable pub load_all : List Bytes → Result (List cms.Certificate)
  load_all [] = ok []
  load_all (der ∷ rest) =
      and_then (cms.load_certificate der)
        λ cert. and_then (load_all rest) λ certs. ok (cert ∷ certs)

  abbrev pub certs_only : List cms.Certificate → SignedData cms.Certificate cms.Name
  certs_only certs = record {
    version = "v1";
    digest_algorithms = [];
    encap_content_info = record { content_type = "data"; content = none };
    certificates = certs;
    signer_infos = [];
  }

  unfoldable pub certs_only_pkcs7 : List Bytes → Result Bytes
  unfolding load_all
  certs_only_pkcs7 certificates_der =
      and_then (load_all certificates_der)
        λ certs. ok (cms.dump_content (signed_data (certs_only certs)))
