-- ===== src/VhostOnReg/Tests.antt =====
-- The theorem about the hosts of new accounts at a concrete input.
use atheme_contrib_modules.Services.Numbers.{print_uint, print_from}
use atheme_contrib_modules.Prelude.{[], ◌++◌, ◌∷◌, true, ◌≡◌, refl, some, length, ◌≤◌, ◌<◌, arith}
use atheme_contrib_modules.Services.Fixtures.{Table, table}
use atheme_contrib_modules.Services.Text.{codes, is_digit}
use atheme_contrib_modules.Services.Keyed.{keep}
use atheme_contrib_modules.VhostOnReg.Hosts.{label, cloak, user_add_host_lem}
use atheme_contrib_modules.VhostOnReg.{Account, is_valid, pad_5, user_add_host, hook_user_identify}

abbrev alice : Account Table
alice = record { name = codes "al_ice"; metadata = []; logins = 4 ∷ [] }

abbrev other : Account Table
other = record { name = codes "alice-00041"; metadata = []; logins = [] }

user_add_host_lem_example :
    let host = label 47 (codes "al_ice") 41 ++ 46 ∷ codes "users.example.net" in
    let (after, counter, _) =
      user_add_host table 65 true true (codes "users.example.net") alice 41 in
    (cloak table after ≡ some host)
    × (length host ≤ 65)
    × (counter ≡ 42)
    × (counter < 100000)
    × (hook_user_identify table 65 true true (some (codes "users.example.net")) after counter
        ≡ (after, counter, []))
unfolding is_valid is_digit
user_add_host_lem_example =
    user_add_host_lem table 65 true true (codes "users.example.net") alice 41 (omega arith)
      (omega arith)

-- Two accounts with one host.
clash : label 47 alice.name 41 ≡ label 47 other.name 42
unfolding keep is_valid pad_5 print_uint print_from is_digit
clash = refl
