-- ===== src/Joinmon/Tests.antt =====
-- The theorems about JOINMON at concrete inputs.
use atheme_contrib_modules.Joinmon.Commands.{watch_user_joins-first}
use atheme_contrib_modules.Joinmon.Monitored.{Call, monitored, run, replay, joinmon_refines}
use atheme_contrib_modules.Joinmon.Commands.{user_of}
use atheme_contrib_modules.Services.Fixtures.{ascii}
use atheme_contrib_modules.Services.Text.{codes, strcasecmp_eq, strcmp_eq}
use atheme_contrib_modules.Services.Registry.{IsUnique}
use atheme_contrib_modules.Services.Keyed.{any}
use atheme_contrib_modules.Joinmon.{
  Source, Joinmon, Chanuser, static, heap, watch_user_joins, has_joined,
}
use atheme_contrib_modules.Prelude.{List, some, ◌∷◌, [], true, none, ◌≡◌, refl}

abbrev source : Source
source = record { smu = some (codes "admin"); name = codes "Admin" }

abbrev bots : Joinmon
bots = record {
  user = codes "Bot*";
  mon_ts = 100;
  creator = codes "Admin";
  reason = static (codes "None");
}

abbrev spammers : Joinmon
spammers = record {
  user = codes "spam?";
  mon_ts = 200;
  creator = codes "Admin";
  reason = heap (codes "sends spam");
}

abbrev two : List Joinmon
two = bots ∷ spammers ∷ []

two-IsUnique : IsUnique ascii user_of two
unfolding any strcasecmp_eq
two-IsUnique = (refl, (refl, tt))

abbrev arrival : Chanuser
arrival = record { nick = codes "spam?"; chan = codes "#c"; eob = true }

watch_user_joins-first_example :
    (watch_user_joins strcmp_eq two (some arrival)
      ≡ has_joined (codes "spam?") (codes "spam?") (codes "#c") ∷ [])
    × (watch_user_joins strcmp_eq (bots ∷ []) (some arrival) ≡ [])
unfolding any strcmp_eq
watch_user_joins-first_example =
    watch_user_joins-first strcmp_eq (bots ∷ []) [] spammers arrival refl

abbrev two_calls : List Call
two_calls =
    record {
      si = source;
      now = 300;
      action = some (codes "DEL");
      pattern = some (codes "BOT*");
      reason = none;
    }
    ∷ record {
      si = source;
      now = 301;
      action = some (codes "add");
      pattern = some (codes "spam*");
      reason = some (codes "again");
    }
    ∷ []

joinmon_refines_example :
    monitored ascii (run ascii two_calls two) ≡ replay ascii two_calls (monitored ascii two)
unfolding any strcasecmp_eq
joinmon_refines_example = joinmon_refines ascii two_calls two two-IsUnique
