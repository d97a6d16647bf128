-- ===== src/Cms.antt =====
-- The values of `asn1crypto.cms` that services/est and services/scep build and read: the names of the
-- fields are the keys of its dictionaries.
use pkica.Base.{String, Option, List}
use pkica.Base.Int.{ℤ}
use pkica.Asn1.{Bytes}
use pkica.Effect.{Result}

-- cms.IssuerAndSerialNumber
pub record IssuerAndSerialNumber (Name : Type 0) : Type 0 where
  pub issuer : Name
  pub serial_number : ℤ

pub record KeyTransRecipientInfo (Name : Type 0) : Type 0 where
  pub version : String
  pub rid : IssuerAndSerialNumber Name
  pub key_encryption_algorithm : String
  pub encrypted_key : Bytes

-- A recipient of another kind has no field `encrypted_key` of its own.
pub data RecipientInfo (Name : Type 0) : Type 0 where
  ktri : KeyTransRecipientInfo Name → RecipientInfo Name
  other_recipient : RecipientInfo Name

pub record EncryptedContentInfo : Type 0 where
  pub content_type : String
  pub algorithm : String
  pub parameters : Bytes
  pub encrypted_content : Bytes

pub record EnvelopedData (Name : Type 0) : Type 0 where
  pub version : String
  pub recipient_infos : List (RecipientInfo Name)
  pub encrypted_content_info : EncryptedContentInfo

pub data CmsAttribute : Type 0 where
  content_type : String → CmsAttribute
  message_digest : Bytes → CmsAttribute

pub record SignerInfo (Name : Type 0) : Type 0 where
  pub version : String
  pub sid : IssuerAndSerialNumber Name
  pub digest_algorithm : String
  pub signed_attrs : List CmsAttribute
  pub signature_algorithm : String
  pub signature : Bytes

pub record EncapContentInfo : Type 0 where
  pub content_type : String
  pub content : Option Bytes

pub record SignedData (Certificate Name : Type 0) : Type 0 where
  pub version : String
  pub digest_algorithms : List String
  pub encap_content_info : EncapContentInfo
  pub certificates : List Certificate
  pub signer_infos : List (SignerInfo Name)

pub data ContentInfo (Certificate Name : Type 0) : Type 0 where
  enveloped_data : EnvelopedData Name → ContentInfo Certificate Name
  signed_data : SignedData Certificate Name → ContentInfo Certificate Name
  other_content : ContentInfo Certificate Name

-- asn1crypto: certificates with the issuer and the number in them, and the DER of the values above.
pub record CmsLib : Type 1 where
  pub Certificate : Type 0
  pub Name : Type 0
  pub load_certificate : Bytes → Result Certificate
  pub issuer : Certificate → Name
  pub serial_number : Certificate → ℤ
  pub load_content : Bytes → Result (ContentInfo Certificate Name)
  pub dump_content : ContentInfo Certificate Name → Bytes
  pub dump_attributes : List CmsAttribute → Bytes
  -- the DER of the value that the content's octets hold
  pub dump_parsed : Bytes → Result Bytes
