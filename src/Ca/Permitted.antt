-- ===== src/Ca/Permitted.antt =====
-- services/ca/app/service.py: what `_enforce_profile` accepts.
use pkica.Base.{String, ◌≡◌, ◌↔◌, refl, true, List, [], ◌∷◌, member, All, arith, eq_iff}
use pkica.Text.{before, split, comma}
use pkica.Effect.{Result, ok, err}
use pkica.Models.{CertProfile}
use pkica.Platform.{Platform}
use pkica.Ca.Policy.{describe_key_algorithm, enforce_sans, key_permitted, enforce_profile}

-- A name of the kind `dns` or `ip` needs the profile's leave; the other kinds do not.
pub record IsAllowed (profile : CertProfile) (san : String) : Type 0 where
  pub dns : before b':' san ≡ "dns" → profile.allow_san_dns ≡ true
  pub ip : before b':' san ≡ "ip" → profile.allow_san_ip ≡ true

-- The key is of a kind that the profile lists, and every name is allowed.
pub record IsPermitted (p : Platform) (profile : CertProfile) (key : p.PublicKey)
    (sans : List String) : Type 0 where
  pub key_algo : String
  pub described : describe_key_algorithm p key ≡ ok key_algo
  pub listed : member key_algo (split comma profile.allowed_key_algorithms) ≡ true
  pub allowed : All (IsAllowed profile) sans

sans_sound :
    (profile : CertProfile) (sans : List String)
    → enforce_sans profile sans ≡ ok tt
    → All (IsAllowed profile) sans
unfolding enforce_sans
sans_sound profile [] h = tt
sans_sound profile (san ∷ sans) h =
    let kind = before b':' san in
    (
      record {
        dns = λ e. ground (arith, h, e, eq_iff kind "dns");
        ip = λ e. ground (arith, h, e, eq_iff kind "ip", eq_iff kind "dns");
      },
      sans_sound profile sans (ground (arith, h)),
    )

sans_complete :
    (profile : CertProfile) (sans : List String)
    → All (IsAllowed profile) sans
    → enforce_sans profile sans ≡ ok tt
unfolding enforce_sans
sans_complete profile [] h = refl
sans_complete profile (san ∷ sans) h =
    let kind = before b':' san in
    ground
      (arith, sans_complete profile sans h.1, h.0.dns, h.0.ip, eq_iff kind "dns", eq_iff kind "ip")

module _ (p : Platform) (profile : CertProfile) (key : p.PublicKey) (sans : List String) where
  sound :
      (described : Result String)
      → describe_key_algorithm p key ≡ described
      → enforce_profile p profile key sans ≡ ok tt
      → IsPermitted p profile key sans
  unfolding enforce_profile key_permitted
  sound (err e) d h = absurd (ground (arith, d, h))
  sound (ok algo) d h =
      let listed : member algo (split comma profile.allowed_key_algorithms) ≡ true =
        ground (arith, d, h) in
      record {
        key_algo = algo;
        described = d;
        listed = listed;
        allowed = sans_sound profile sans (ground (arith, d, h, listed));
      }

  complete : IsPermitted p profile key sans → enforce_profile p profile key sans ≡ ok tt
  unfolding enforce_profile key_permitted
  complete k = ground (arith, k.described, k.listed, sans_complete profile sans k.allowed)

  -- The checks of a profile accept a key and names exactly when the key's description is one that the
  -- profile lists, and every name of the kind dns or ip has the profile's leave.
  pub enforce_profile-iff-IsPermitted :
      (enforce_profile p profile key sans ≡ ok tt) ↔ IsPermitted p profile key sans
  enforce_profile-iff-IsPermitted = (sound (describe_key_algorithm p key) refl, complete)
