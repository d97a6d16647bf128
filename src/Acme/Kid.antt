-- ===== src/Acme/Kid.antt =====
-- services/acme/app/main.py and jws.py: the address of an account, and the padding of segments.
use Prim.Native.String.{◌++◌ as glue}
use pkica.Base.{ℕ, ◌%◌, ◌≤◌, String, false, true, ◌≡◌, refl, some, arith}
use pkica.Text.{contains, text_length, repeat}
use pkica.Text.Segments.{last_segment-account, text_length-append, text_length-repeat}
use pkica.Json.{text, object, Members, nonempty, find_member, get_or}
use pkica.Effect.{ok, lift, or_raise, ◌>>=◌}
use pkica.Ra.Http.{RaClient}
use pkica.Acme.Tables.{AcmeAccount, account_with_id}
use pkica.Acme.Server.{AcmeLib, Server, read}
use pkica.Acme.Jws.{padding_length, b64url_decode, account_part, kid_uuid, get_account_from_kid}
use pkica.Acme.Accounts.{base_url, location_of}

-- `uuid.UUID(str(u))` is u, and the text of a UUID has digits and hyphens.
pub record IsUuidText (lib : AcmeLib) : Type 0 where
  pub parse_uuid-uuid_text : (id : ℕ) → lib.parse_uuid (lib.uuid_text id) ≡ ok id
  pub filled : (id : ℕ) → nonempty (lib.uuid_text id) ≡ true
  pub no_slash : (id : ℕ) → contains b'/' (lib.uuid_text id) ≡ false

account_part-location_of :
    (lib : AcmeLib)
    → IsUuidText lib
    → (id : ℕ) → account_part lib (location_of lib id) ≡ lib.uuid_text id
unfolding account_part location_of
account_part-location_of lib u id =
    last_segment-account base_url (lib.uuid_text id) (u.filled id) (u.no_slash id)

kid_uuid-location_of :
    (lib : AcmeLib) (id : ℕ) (members : Members)
    → IsUuidText lib
    → find_member "kid" members ≡ some (text (location_of lib id))
    → kid_uuid lib (object members) ≡ ok id
unfolding kid_uuid get_or location_of
kid_uuid-location_of lib id members u h =
    rw h (rw (account_part-location_of lib u id) (u.parse_uuid-uuid_text id))

-- The address that an account is given identifies it: a header whose member `kid` is the address of
-- an account's row is taken as that account's, and the tables stay as they are.
pub get_account_from_kid-location_of :
    (lib : AcmeLib) (ra : RaClient) (s : Server lib ra) (account : AcmeAccount) (members : Members)
    → IsUuidText lib
    → account_with_id account.id s.session ≡ some account
    → find_member "kid" members ≡ some (text (location_of lib account.id))
    → get_account_from_kid (object members) s ≡ (ok account, s)
unfolding get_account_from_kid ◌>>=◌ lift read or_raise
get_account_from_kid-location_of lib ra s account members u row h =
    rw (kid_uuid-location_of lib account.id members u h) (rw row refl)

-- What `b64url_decode` hands to the decoder is the segment with at most three characters of padding
-- behind it, and its length is a multiple of four.
pub b64url_decode-padded :
    (lib : AcmeLib) (segment : String)
    → (n : ℕ) × (b64url_decode lib segment ≡ lib.urlsafe_b64decode (glue segment (repeat "=" n)))
      × (n ≤ 3)
      × (text_length (glue segment (repeat "=" n)) % 4 ≡ 0)
unfolding b64url_decode padding_length
b64url_decode-padded lib segment =
    let n = padding_length (text_length segment) in
    let whole : text_length (glue segment (repeat "=" n)) % 4 ≡ 0 =
      rw (text_length-append segment (repeat "=" n))
        (rw (text_length-repeat "=" n) (omega arith)) in
    (n, refl, omega arith, whole)
