-- ===== src/Cloudwatch/Windows.antt =====
-- The retry window against the doubled base.
use cockroachdbxaws.Base.{ℕ, ◌+◌, ◌≤◌, ◌≡◌, ◌⊎◌}

-- What the loop returns from `w`, whose nominal value after the rounds is `n`.
abbrev pub Bounded : ℕ → ℕ → ℕ → Type 0
Bounded maximum n result =
    (result ≤ maximum) × (result ≤ n + 1) × ((n ≤ result) ⊎ (result ≡ maximum))
