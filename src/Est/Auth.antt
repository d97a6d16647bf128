-- ===== src/Est/Auth.antt =====
-- services/est/app/main.py: `verify_basic_auth`.
use pkica.Base.{String, Bool, Option, none, some, List, [], ◌∷◌, ◌==◌, map, select, if◌then◌else◌}
use pkica.Text.{split, comma, contains, before, after}
use pkica.Json.{nonempty}
use pkica.Effect.{Result, ok, err, and_then, http_exception}
use pkica.Enrollment.{EnrollmentLib}

-- pair.split(":", 1), for a text that holds a colon
unfoldable pub pair_of : String → String × String
unfolding before after
pair_of pair = (before b':' pair, after b':' pair)

-- (pair.split(":", 1) for pair in configured.split(",") if ":" in pair)
unfoldable pub valid_pairs : String → List (String × String)
unfolding split contains pair_of
valid_pairs configured = map pair_of (select (contains b':') (split comma configured))

abbrev or_else : {A : Type 0} → Option A → Option A → Option A
or_else (some a) o = some a
or_else none o = o

-- dict(pairs).get(username): the last pair of a name counts
unfoldable pub password_of : String → List (String × String) → Option String
password_of username [] = none
password_of username ((u, p) ∷ pairs) =
    let later = password_of username pairs in or_else later (if u == username then some p else none)

abbrev invalid : {A : Type 0} → Result A
invalid = err (http_exception 401 "Invalid EST enrollment credentials")

abbrev pub if_same : String → Bool → Result String
if_same username same = if same then ok username else invalid

-- `not expected`, then the comparison
unfoldable pub check_password : EnrollmentLib → Option String → String → String → Result String
check_password lib none username password = invalid
check_password lib (some expected) username password =
    if nonempty expected
    then and_then (lib.compare_digest expected password) (if_same username)
    else invalid

-- verify_basic_auth, with PKICA_EST_ENROLLMENT_USERS as an argument
unfoldable pub verify_basic_auth : EnrollmentLib → String → String → String → Result String
unfolding valid_pairs password_of check_password
verify_basic_auth lib configured username password =
    check_password lib (password_of username (valid_pairs configured)) username password
