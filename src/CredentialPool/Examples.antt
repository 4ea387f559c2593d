-- ===== src/CredentialPool/Examples.antt =====
-- The choice of a credential at concrete pools.
use auto_dev_os.Base.{ℕ, String, ◌≡◌, refl, none, some, List, [], ◌∷◌, ◌==◌}
use auto_dev_os.CredentialPool.{Credential, Pool, Stored}
use auto_dev_os.CredentialPool.MinCooldown.{
  ListedCredential, get_min_cooldown, scan, is_counted, until_of, own_until, wait_of, shorter,
  or_zero,
}
use auto_dev_os.CredentialPool.MinCooldown.Least.{IsShortest, min_cooldown-IsShortest}

abbrev two_keys : List Credential
two_keys =
    record { ident = "first"; cooldown_until = none }
    ∷ record { ident = "second"; cooldown_until = none }
    ∷ []

abbrev empty_pool : Pool
empty_pool = record { rr_counters = []; model_cooldowns = [] }

-- The store cannot be read.
abbrev lost : Stored
lost ident model = none

-- The second cannot be selected before somebody logs in again.
abbrev cooling_and_logged_out : List ListedCredential
cooling_and_logged_out =
    record {
      ident = "first";
      provider = "cli:x";
      status = "rate_limited";
      cooldown_until = some 60;
    }
    ∷ record {
      ident = "second";
      provider = "cli:x";
      status = "needs_reauth";
      cooldown_until = none;
    }
    ∷ []

hidden_wait :
    (get_min_cooldown lost (λ text. text) 2 "cli:x" "" (some cooling_and_logged_out) empty_pool).1
    ≡ some (0, "second")
unfolding get_min_cooldown scan is_counted until_of own_until wait_of shorter or_zero ◌==◌
hidden_wait = refl

min_cooldown-IsShortest_example :
    (answer : ℕ × String) × (get_min_cooldown lost
        (λ text. text)
        2
        "cli:x"
        ""
        (some cooling_and_logged_out)
        empty_pool
      ≡ (empty_pool, some answer))
    × IsShortest lost (λ text. text) 2 "cli:x" cooling_and_logged_out answer
min_cooldown-IsShortest_example =
    min_cooldown-IsShortest lost (λ text. text) 2 "cli:x" cooling_and_logged_out empty_pool
