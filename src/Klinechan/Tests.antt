-- ===== src/Klinechan/Tests.antt =====
-- The theorems about k-line channels at concrete inputs.

use atheme_contrib_modules.Services.Fixtures.{Table}
use atheme_contrib_modules.Klinechan.{Mychan, User, timestamp, reason_key, closer}
use atheme_contrib_modules.Services.Text.{Text, codes}
use atheme_contrib_modules.Prelude.{ℕ, ◌+◌, ◌%◌, false, some, [], ◌∷◌}

abbrev one_digit : ℕ → Text
one_digit t = (48 + t % 10) ∷ []

abbrev trap : Mychan Table
trap = record { name = codes "#trap"; log = false; meta = [] }

abbrev trap_on : Mychan Table
trap_on = record trap {
  meta = (timestamp, codes "5") ∷ (reason_key, codes "bots") ∷ (closer, codes "Oper") ∷ [];
}

abbrev bot : User
bot = record {
  nick = codes "bot";
  host = codes "h";
  ip = some (codes "10.0.0.1");
  internal = false;
  klinesent = false;
  staff = false;
  exempt = false;
}
