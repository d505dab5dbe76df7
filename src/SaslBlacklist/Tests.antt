-- ===== src/SaslBlacklist/Tests.antt =====
-- The theorems about restricted addresses at concrete inputs.
use atheme_contrib_modules.SaslBlacklist.Hooks.{hooks_agree}
use atheme_contrib_modules.Services.Fixtures.{ascii}
use atheme_contrib_modules.Services.Keyed.{any, keep}
use atheme_contrib_modules.SaslBlacklist.{
  Blacklist, ConfigEntry, User, Session, Source, c_restricted_hosts, blacklist_can_login,
  blacklist_can_register, blacklist_can_rename, blacklist_can_logout,
}
use atheme_contrib_modules.Services.Text.{Text, codes, strcmp_eq}
use atheme_contrib_modules.Prelude.{Bool, false, [], some, none, true, ◌∷◌, ◌≡◌, refl}

abbrev no_ips : Text → Text → Bool
no_ips mask host = false

abbrev empty : Blacklist
empty = record { restricted_hosts = []; permitted_mechanisms = codes "ECDSA" ∷ [] }

abbrev tor_entry : ConfigEntry
tor_entry = record { varname = codes "tor"; nested = false }

abbrev onion : User
onion = record {
  nick = codes "x";
  host = some (codes "tor");
  chost = none;
  vhost = some [];
  ip = none;
  account = none;
}

abbrev source_of : User → Source
source_of u = record { smu = some 4; is_sasl = false; sess = none; su = some u }

hooks_agree_example :
    let t = (c_restricted_hosts (tor_entry ∷ []) empty).0 in
    ((blacklist_can_login ascii strcmp_eq no_ips t 5 (codes "Acc") (some (source_of onion)) true).0
      ≡ false)
    × ((blacklist_can_register ascii strcmp_eq no_ips t (some onion) 2).0 ≡ 3)
    × ((blacklist_can_rename ascii strcmp_eq no_ips t (some onion) true).0 ≡ false)
    × ((blacklist_can_logout ascii strcmp_eq no_ips t (some onion) true).0 ≡ false)
    × ((c_restricted_hosts [] empty).0 ≡ empty)
unfolding any keep strcmp_eq
hooks_agree_example =
    hooks_agree ascii strcmp_eq no_ips tor_entry [] empty onion (source_of onion) 5 2 (codes "Acc")
      refl refl refl

abbrev tor_only : Blacklist
tor_only = record empty { restricted_hosts = codes "tor" ∷ [] }

abbrev session : Session
session = record {
  uid = codes "1";
  host = some (codes "tor");
  ip = none;
  mechptr = some (codes "PLAIN");
}

abbrev sasl : Source
sasl = record { smu = none; is_sasl = true; sess = some session; su = none }
