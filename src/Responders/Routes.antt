-- ===== src/Responders/Routes.antt =====
-- services/ocsp/app/main.py and services/crl/app/main.py: the routes.
use Prim.Native.String.{◌++◌ as glue}
use pkica.Base.{ℕ, ◌+◌, String}
use pkica.Base.Int.{ℤ, pos, negsuc}
use pkica.Text.Hex.{format_hex}
use pkica.Effect.{Error, Result, ok, err, message, http_exception, map_error, and_then, Exec}
use pkica.Asn1.{Bytes}
use pkica.Ra.Client.{CaClient}
use pkica.Responders.Cache.{Process, respond}

-- What the OCSP responder calls: the serial number of the first single request in the DER of an
-- OCSPRequest, and base64.b64decode.
pub record OcspLib : Type 0 where
  pub first_serial_number : Bytes → Result ℤ
  pub b64decode : String → Result Bytes

-- format(serial, "x"), with the sign of a negative number in front
unfoldable pub format_serial : ℤ → String
format_serial (pos n) = format_hex n
format_serial (negsuc n) = glue "-" (format_hex (n + 1))

-- `except Exception as exc: raise HTTPException(400, f"Malformed OCSP request: {exc}")`
unfoldable pub malformed : Error → Error
malformed e = http_exception 400 (glue "Malformed OCSP request: " (message e))

-- `except Exception as exc: raise HTTPException(502, f"Unable to fetch CRL from CA: {exc}")`
unfoldable pub unable_to_fetch : Error → Error
unable_to_fetch e = http_exception 502 (glue "Unable to fetch CRL from CA: " (message e))

-- _CACHE_TTL_SECONDS and _REFRESH_SECONDS, in microseconds
abbrev pub cache_ttl : ℤ
cache_ttl = pos 60000000

abbrev pub refresh_time : ℤ
refresh_time = pos 900000000

abbrev or_malformed : Result ℤ → Result String
or_malformed (ok serial) = ok (format_serial serial)
or_malformed (err e) = err (malformed e)

-- _extract_serial_from_ocsp_request, in the `try` of `_handle`
unfoldable pub extract_serial : OcspLib → Bytes → Result String
extract_serial lib der = or_malformed (lib.first_serial_number der)

-- f"{ca_name}:{serial_hex}"
unfoldable pub cache_key : String × String → String
cache_key (ca_name, serial_hex) = glue ca_name (glue ":" serial_hex)

unfoldable pub query_of : OcspLib → String × Bytes → Result (String × String)
query_of lib (ca_name, der) =
    and_then (extract_serial lib der) (λ serial_hex. ok (ca_name, serial_hex))

module _ (c : CaClient) (time_at : ℕ → ℤ) where
  module _ (lib : OcspLib) where
    abbrev pub sign_query : String × String → Exec c.Remote Bytes
    sign_query (ca_name, serial_hex) = c.sign_ocsp ca_name serial_hex

    -- ocsp_post
    unfoldable pub ocsp_post : String → Bytes → Exec (Process c.Remote) Bytes
    ocsp_post ca_name body =
        respond time_at cache_ttl (query_of lib) cache_key sign_query (ca_name, body)

    -- ocsp_get; a text that is no base64 is an error outside the `try`
    unfoldable pub ocsp_get : String → String → Exec (Process c.Remote) Bytes
    ocsp_get ca_name b64_request s = elim (lib.b64decode b64_request) [
      | err e ↦ (err e, s)
      | ok der ↦ ocsp_post ca_name der s
    ]

  -- get_crl
  unfoldable pub get_crl : String → Exec (Process c.Remote) Bytes
  get_crl ca_name =
      respond time_at refresh_time (λ name. ok name) (λ name. name)
        (λ name. map_error unable_to_fetch (c.fetch_crl name)) ca_name
