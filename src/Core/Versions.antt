-- ===== src/Core/Versions.antt =====
-- TOX_VERSION_IS_API_COMPATIBLE of tox/core.h, between versions.
use tox4j.Base.{ℕ, true, ◌≡◌, arith}
use tox4j.Core.Enums.{is_api_compatible}

-- The library of the first version serves a client that was built against the second one.
abbrev pub Serves : ℕ × ℕ × ℕ → ℕ × ℕ × ℕ → Type 0
Serves v (major, minor, patch) = is_api_compatible v major minor patch ≡ true

-- Compatibility orders the versions: a version serves its own clients; if a version serves the clients
-- of a second one and that one those of a third, the first serves those of the third; and two
-- versions that serve each other's clients are the same.
pub compatible_order :
    (u v w : ℕ × ℕ × ℕ)
    → Serves v v × (Serves u v → Serves v w → Serves u w) × (Serves u v → Serves v u → u ≡ v)
unfolding is_api_compatible
compatible_order (a, b, c) (d, e, f) (g, h, i) =
    (ground arith, (λ p q. ground arith), (λ p q. ground arith))
