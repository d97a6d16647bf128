-- ===== src/Tests/ScriptRuns.antt =====
-- The theorem on the set-up of the profiles at a concrete input.
use pkica.Base.{◌≡◌, refl, All, [], ◌∷◌}
use pkica.Effect.{ok, pure, or_raise, ◌>>=◌}
use pkica.Models.{ca_named, profile_named}
use pkica.Platform.{World, uuid4, with_db, read_db}
use pkica.Scripts.Seed.{profiles, insert_profile, add_missing, seed_profile, seed_all, seed}
use pkica.Scripts.Complete.{Present, Extends, seed-Present}
use pkica.Tests.World.{test_db, test_world, test_platform}
use pkica.Tests.RaRuns.{issuing_authority}

abbrev ready_world : World test_platform
ready_world = record test_world {
  db = record test_db { certificate_authorities = issuing_authority ∷ [] };
  calls = 7;
}

abbrev seeded_world : World test_platform
seeded_world = (seed "issuing-ca-1" ready_world).1

seed-Present_example :
    All (Present seeded_world.db) profiles
    × Extends ready_world.db seeded_world.db
    × (seed "issuing-ca-1" seeded_world ≡ (ok tt, seeded_world))
seed-Present_example = seed-Present test_platform "issuing-ca-1" ready_world seeded_world (
    unfold seed seed_all seed_profile add_missing insert_profile profiles pure or_raise ◌>>=◌
      ca_named profile_named uuid4 with_db read_db in
    refl)
