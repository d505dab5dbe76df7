-- ===== src/AkillNickList/Tests.antt =====
-- The theorem about the lists of names at a concrete input.
use atheme_contrib_modules.Prelude.{
  [], List, ◌∷◌, false, ◌≡◌, if◌then◌else◌, some, ◌||◌, ◌==◌, refl, true, ◌&&◌,
}
use atheme_contrib_modules.AkillNickList.Hits.{Config, read_config, is_kline, aknl_nickhook_once}
use atheme_contrib_modules.Services.Text.{Text, codes, strcasecmp_eq}
use atheme_contrib_modules.AkillNickList.{Patricia, User, user, nick, created, all, aknl_nickhook}
use atheme_contrib_modules.Services.Keyed.{any}
use mathlib.Core.Option.{none}
use atheme_contrib_modules.Services.Fixtures.{ascii}

none_there : (k : Text) → any (λ j. ascii.same j k) [] ≡ false
unfolding any
none_there k = refl

added_there :
    (k j : Text) (t : List Text)
    → any (λ i. ascii.same i j) (k ∷ t) ≡ (ascii.same k j || any (λ i. ascii.same i j) t)
unfolding any
added_there k j t = refl

-- The keys one after the other.
abbrev keys : Patricia (List Text) ascii
keys = record {
  create = [];
  add = λ k t. k ∷ t;
  retrieve = λ k t. any (λ j. ascii.same j k) t;
  retrieve-create = none_there;
  retrieve-add = added_there;
}

abbrev chopped : Text → Text
chopped [] = []
chopped (c ∷ s) = if c == 10 then [] else c ∷ chopped s

abbrev files : Config
files =
    (user, none)
    ∷ (nick, some ((10 ∷ []) ∷ codes "x" ∷ []))
    ∷ (all, some ((66 ∷ 111 ∷ 116 ∷ 10 ∷ []) ∷ []))
    ∷ []

abbrev bot : User
bot = record {
  nick = codes "n";
  user = codes "~bot";
  host = codes "h";
  gecos = codes "g";
  internal = false;
  exempt = false;
  klinesent = false;
}

aknl_nickhook_once_example :
    let lists = read_config keys chopped files (created keys chopped) in
    let (u', events) = aknl_nickhook keys chopped lists (some bot) in
    (any is_kline events ≡ true)
    × ((any is_kline events && any is_kline (aknl_nickhook keys chopped lists u').1) ≡ false)
unfolding any strcasecmp_eq
aknl_nickhook_once_example =
    aknl_nickhook_once keys chopped files (read_config keys chopped files (created keys chopped))
      bot
