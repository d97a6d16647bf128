-- ===== src/Est/Credentials.antt =====
-- services/est/app/main.py: the users that PKICA_EST_ENROLLMENT_USERS lists, and `verify_basic_auth`.
use Prim.Native.Char.{Char, code}
use Prim.Native.String.{◌++◌ as glue, [] as nil, ◌∷◌ as cons}
use Prim.Native.String.append
use pkica.Base.{
  ℕ, String, ◌≡◌, ◌↔◌, refl, sym, ap, ◌∙◌, Bool, true, false, ◌&&◌, leb, Option, none, some,
  Option-cases, List, [], ◌∷◌, ◌==◌, map, select, All, arith, eqb_refl, eq_iff, eq_refl, Bool-cases,
  inl, inr,
}
use pkica.Text.{split, join, contains, before, after}
use pkica.Text.Join.{split-join}
use pkica.Json.{nonempty}
use pkica.Effect.{Error, ok, err, and_then}
use pkica.Enrollment.{EnrollmentLib}
use pkica.Est.Auth.{pair_of, valid_pairs, password_of, check_password, if_same, verify_basic_auth}

-- Names hold neither mark, and passwords no comma.
abbrev pub Plain : String × String → Type 0
Plain (u, p) = (contains b',' u ≡ false) × (contains b':' u ≡ false) × (contains b',' p ≡ false)

abbrev pub entry_of : String × String → String
entry_of (u, p) = glue u (glue ":" p)

before-separator :
    (c : Char) (u p : String)
    → contains (code c) u ≡ false
    → before (code c) (glue u (cons c p)) ≡ u
unfolding before contains
before-separator c nil p h = rw append.nil (rw (eqb_refl (code c)) refl)
before-separator c (cons d u) p h = rw append.cons (ground (arith, before-separator c u p))

after-separator :
    (c : Char) (u p : String) → contains (code c) u ≡ false → after (code c) (glue u (cons c p)) ≡ p
unfolding after contains
after-separator c nil p h = rw append.nil (rw (eqb_refl (code c)) refl)
after-separator c (cons d u) p h = rw append.cons (ground (arith, after-separator c u p))

contains-separator : (c : Char) (u p : String) → contains (code c) (glue u (cons c p)) ≡ true
unfolding contains
contains-separator c nil p = rw append.nil (rw (eqb_refl (code c)) refl)
contains-separator c (cons d u) p = rw append.cons (ground (arith, contains-separator c u p))

free_entry :
    (c : ℕ) (u p : String)
    → contains c u ≡ false
    → contains c p ≡ false
    → contains c (glue u p) ≡ false
unfolding contains
free_entry c nil p h k = rw append.nil k
free_entry c (cons d u) p h k = rw append.cons (ground (arith, free_entry c u p))

colon_entry : (p : String) → glue ":" p ≡ cons ":" p
colon_entry p = rw append.cons (rw append.nil refl)

pair_of-entry_of : (u p : String) → contains b':' u ≡ false → pair_of (entry_of (u, p)) ≡ (u, p)
unfolding pair_of
pair_of-entry_of u p h =
    rw (colon_entry p) (rw (before-separator ":" u p h) (rw (after-separator ":" u p h) refl))

entries-free :
    (users : List (String × String))
    → All Plain users
    → All (λ e. contains b',' e ≡ false) (map entry_of users)
entries-free [] h = tt
entries-free ((u, p) ∷ users) h = (
  free_entry b',' u (glue ":" p) h.0.0
      (rw (colon_entry p) (unfold contains in ground (arith, h.0.2))),
  entries-free users h.1,
)

pairs-entries :
    (users : List (String × String))
    → All Plain users
    → map pair_of (select (contains b':') (map entry_of users)) ≡ users
pairs-entries [] h = refl
pairs-entries ((u, p) ∷ users) h =
    let colon : contains b':' (entry_of (u, p)) ≡ true =
      rw (colon_entry p) (contains-separator ":" u p) in
    rw colon (rw (pair_of-entry_of u p h.0.1) (rw (pairs-entries users h.1) refl))

-- The list is read as it was written.
valid_pairs-join :
    (users : List (String × String))
    → All Plain users
    → valid_pairs (join "," (map entry_of users)) ≡ users
unfolding valid_pairs
valid_pairs-join [] h = unfold join split contains in refl
valid_pairs-join (x ∷ users) h =
    rw (split-join "," (entry_of x) (map entry_of users) (entries-free (x ∷ users) h))
      (pairs-entries (x ∷ users) h)

abbrev pub Absent : String → List (String × String) → Type 0
Absent username = All (λ e. (e.0 == username) ≡ false)

-- The last entry of the name has this password.
pub data LastEntry (username password : String) : List (String × String) → Type 0 where
  last :
      (u p : String) (rest : List (String × String))
      → u ≡ username
      → p ≡ password
      → Absent username rest
      → LastEntry username password ((u, p) ∷ rest)
  earlier :
      (x : String × String) (rest : List (String × String))
      → LastEntry username password rest
      → LastEntry username password (x ∷ rest)

password_of-Absent :
    (username : String) (users : List (String × String))
    → password_of username users ≡ none
    → Absent username users
unfolding password_of
password_of-Absent username [] h = tt
password_of-Absent username ((u, p) ∷ users) h = elim (Option-cases (password_of username users)) [
  | inl e ↦ (ground (arith, e, h), password_of-Absent username users e)
  | inr (q, e) ↦ absurd (cc)
]

Absent-password_of :
    (username : String) (users : List (String × String))
    → Absent username users
    → password_of username users ≡ none
unfolding password_of
Absent-password_of username [] h = refl
Absent-password_of username ((u, p) ∷ users) h =
    rw (Absent-password_of username users h.1) (rw h.0 refl)

password_of-LastEntry :
    (username password : String) (users : List (String × String))
    → password_of username users ≡ some password
    → LastEntry username password users
unfolding password_of
password_of-LastEntry username password [] h = absurd cc
password_of-LastEntry username password ((u, p) ∷ users) h =
    elim (Option-cases (password_of username users)) [
      | inl e ↦ elim (Bool-cases (u == username)) [
        | inl same ↦
            last u p users (ground (arith, eq_iff u username, same)) (ground (arith, e, same, h))
              (password_of-Absent username users e)
        | inr other ↦ absurd (ground (arith, e, other, h))
      ]
      | inr (q, e) ↦
          earlier (u, p) users
            (password_of-LastEntry username password users (e ∙ (ground (arith, e, h))))
    ]

LastEntry-password_of :
    (username password : String) (users : List (String × String))
    → LastEntry username password users
    → password_of username users ≡ some password
unfolding password_of
LastEntry-password_of username password _ (last u p rest same_u same_p absent) =
    rw (Absent-password_of username rest absent)
      (rw same_u (rw (eq_refl username) (rw same_p refl)))
LastEntry-password_of username password _ (earlier (u, p) rest h) =
    rw (LastEntry-password_of username password rest h) refl

if_same-true : (username : String) (b : Bool) → if_same username b ≡ ok username → b ≡ true
if_same-true username true h = refl
if_same-true username false h = absurd cc

-- every character is one of ASCII
unfoldable pub is_ascii : String → Bool
is_ascii nil = true
is_ascii (cons d s) = leb (code d) 127 && is_ascii s

-- secrets.compare_digest: texts in ASCII are compared, and others are refused with a TypeError.
pub record ComparesAscii (lib : EnrollmentLib) : Type 0 where
  pub compared :
      (a b : String) → is_ascii a ≡ true → is_ascii b ≡ true → lib.compare_digest a b ≡ ok (a == b)
  pub refused :
      (a b : String)
      → (is_ascii a && is_ascii b) ≡ false
      → (e : Error) × (lib.compare_digest a b ≡ err e)

both_true : (a b : Bool) → (a && b) ≡ true → (a ≡ true) × (b ≡ true)
both_true true b h = (refl, h)
both_true false b h = absurd cc

module _ (lib : EnrollmentLib) (compares : ComparesAscii lib) (username password : String) where
  accepted :
      (found : Option String)
      → check_password lib found username password ≡ ok username
      → (nonempty password ≡ true) × (is_ascii password ≡ true) × (found ≡ some password)
  unfolding check_password
  accepted none h = absurd cc
  accepted (some expected) h = elim (Bool-cases (nonempty expected)) [
    | inl filled ↦
        let h' : and_then (lib.compare_digest expected password) (if_same username) ≡ ok username =
          ground (arith, filled, h) in
        elim (Bool-cases (is_ascii expected && is_ascii password)) [
          | inl ascii ↦
              let (ascii_e, ascii_p) = both_true (is_ascii expected) (is_ascii password) ascii in
              let h'' : if_same username (expected == password) ≡ ok username =
                sym (
                  ap (λ r. and_then r (if_same username))
                    (compares.compared expected password ascii_e ascii_p))
                ∙ h' in
              let same : expected ≡ password = ground (
                arith,
                eq_iff expected password,
                if_same-true username (expected == password) h'',
              ) in
              (rw (sym same) filled, ascii_p, rw same refl)
          | inr other ↦
              let (e, refusal) = compares.refused expected password other in
              let failed : err e ≡ ok username =
                sym (ap (λ r. and_then r (if_same username)) refusal) ∙ h' in
              absurd cc
        ]
    | inr blank ↦ absurd (ground (arith, blank, h))
  ]

  accepts :
      (found : Option String)
      → nonempty password ≡ true
      → is_ascii password ≡ true
      → found ≡ some password
      → check_password lib found username password ≡ ok username
  unfolding check_password
  accepts found filled ascii e = rw e (
      rw filled (rw (compares.compared password password ascii ascii) (rw (eq_refl password) refl)))

-- With a list that is written as the names and passwords of some users, each name without `:` and
-- no text with `,`, the check accepts a name and a password exactly when the password is not empty,
-- is in ASCII, and is the one in the last entry of that name, where texts are compared in ASCII only.
pub verify_basic_auth-iff-LastEntry :
    (lib : EnrollmentLib) (users : List (String × String)) (username password : String)
    → ComparesAscii lib
    → All Plain users
    → (verify_basic_auth lib (join "," (map entry_of users)) username password ≡ ok username) ↔ (
        (nonempty password ≡ true) × (is_ascii password ≡ true) × LastEntry username password users)
unfolding verify_basic_auth
verify_basic_auth-iff-LastEntry lib users username password compares plain =
    rw (valid_pairs-join users plain) (
      λ h.
          let (filled, ascii, found) =
            accepted lib compares username password (password_of username users) h in
          (filled, ascii, password_of-LastEntry username password users found),
      λ h.
          let (filled, ascii, last_entry) = h in
          accepts lib compares username password (password_of username users) filled ascii
            (LastEntry-password_of username password users last_entry),
    )
