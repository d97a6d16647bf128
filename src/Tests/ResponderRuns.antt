-- ===== src/Tests/ResponderRuns.antt =====
-- The theorems on the responders at concrete inputs.
use pkica.Base.{ℕ, ◌*◌, String, ◌≡◌, ◌⊎◌, refl, true, [], ◌∷◌}
use pkica.Base.Int.{ℤ, pos, ◌-ℤ◌, ltb_ℤ}
use pkica.Effect.{ok, pure, lift, ◌>>=◌}
use pkica.Responders.Cache.{
  Process, get, set, fresh, time, read_cache, write_cache, ask, or_ask, respond, after,
}
use pkica.Responders.Fresh.{Answered, respond-Answered}
use pkica.Responders.Routes.{refresh_time}

-- Five minutes pass from one call of the clock to the next.
abbrev clock : ℕ → ℤ
clock k = pos (k * 300000000)

abbrev empty_process : Process (Unit {0})
empty_process = record { cache = []; remote = tt; calls = 1 }

-- The list that is cached from five minutes before is given again.
respond-Answered_example :
    (query : String) × (at : ℤ) × (ok "root" ≡ ok query)
    × Answered clock refresh_time
        (λ name. ok name)
        (λ name. name)
        (λ name. pure (48 ∷ []))
        empty_process
        ("root" ∷ "root" ∷ [])
        query
        at
        (48 ∷ [])
    × ((at ≡ clock 2) ⊎ (ltb_ℤ (clock 2 -ℤ at) refresh_time ≡ true))
unfolding after respond ◌>>=◌ read_cache time or_ask fresh get set ask write_cache pure lift ◌-ℤ◌
respond-Answered_example =
    respond-Answered clock refresh_time (λ name. ok name) (λ name. name) (λ name. pure (48 ∷ []))
      empty_process refl ("root" ∷ []) "root" (48 ∷ []) refl
