-- ===== src/Dnsbl/Tests.antt =====
-- The theorems about DNS blacklists at concrete inputs.
use atheme_contrib_modules.Services.Numbers.{print_uint}
use atheme_contrib_modules.Dnsbl.Storage.{load-write_dnsbl_exempt_db}
use atheme_contrib_modules.Dnsbl.Replies.{callback_no_action, callback_after_purge}
use atheme_contrib_modules.Dnsbl.Queries.{referenced, check_dnsbls-asked}
use atheme_contrib_modules.Services.Fixtures.{ascii, plain}
use atheme_contrib_modules.Dnsbl.Lists.{IsDistinct, new_blacklist-IsDistinct}
use atheme_contrib_modules.Prelude.{◌∷◌, true, some, false, [], ◌≡◌, none, refl}
use atheme_contrib_modules.Services.Text.{codes, strcasecmp_eq}
use atheme_contrib_modules.Services.Database.{load}
use atheme_contrib_modules.Dnsbl.{
  Exempt, Blacklist, User, Dnsbl, Query, Reply, os_cmd_set_dnsblaction, blacklist_dns_callback,
  exempt_of, query_name, dnsbl_config_purge, db_h_ble, new_blacklist, check_dnsbls, is_host,
  write_dnsbl_exempt_db, gethost_byname,
}
use atheme_contrib_modules.Services.Keyed.{any}

abbrev localhost : Exempt
localhost = exempt_of (codes "Admin") 5 (codes "127.0.0.1") (codes "this host")

abbrev dronebl : Blacklist
dronebl = record {
  addr = 1;
  status = 0;
  refcount = 0;
  host = codes "dnsbl.dronebl.org";
  hits = 0;
  lastwarning = 0;
}

abbrev visitor : User
visitor = record {
  user = codes "u";
  host = codes "h";
  ip = codes "10.0.200.7";
  internal = false;
  klinesent = false;
  queries = [];
}

abbrev state : Dnsbl
state = record { blacklists = dronebl ∷ []; elist = localhost ∷ []; action = some (codes "KLINE") }

abbrev asked_one : Query
asked_one = record { query = 40; blacklist = 1 }

abbrev garbage : Reply
garbage = record { inet = true; first = 10 }

abbrev listing : Reply
listing = record { inet = true; first = 127 }

new_blacklist-IsDistinct_example :
    IsDistinct (new_blacklist 256 2 (codes "rbl.efnetrbl.org") state.blacklists)
    × (any
          (is_host (codes "RBL.efnetrbl.org"))
          (new_blacklist 256 2 (codes "rbl.efnetrbl.org") state.blacklists)
        ≡ true)
unfolding any strcasecmp_eq
new_blacklist-IsDistinct_example =
    new_blacklist-IsDistinct 256 2 (codes "rbl.efnetrbl.org") (codes "RBL.efnetrbl.org")
      state.blacklists refl (refl, tt)

check_dnsbls-asked_example :
    check_dnsbls ascii 256 40 state (some visitor)
    ≡ some (
      record state { blacklists = referenced dronebl ∷ [] },
      some (record visitor { queries = asked_one ∷ [] }),
      gethost_byname (codes "7.200.0.10.dnsbl.dronebl.org") 40 ∷ [],
    )
unfolding any strcasecmp_eq print_uint query_name
check_dnsbls-asked_example = check_dnsbls-asked ascii 256 40 10 0 200 7 state visitor refl

callback_no_action_example :
    blacklist_dns_callback 7000 asked_one (some listing) (record state { action = none }) visitor
    ≡ none
unfolding os_cmd_set_dnsblaction strcasecmp_eq
callback_no_action_example =
    callback_no_action 7000 asked_one listing state visitor (codes "none") refl refl

callback_after_purge_example :
    blacklist_dns_callback 7000 asked_one (some garbage) (dnsbl_config_purge state) visitor ≡ none
callback_after_purge_example = callback_after_purge 7000 asked_one garbage state visitor refl

load-write_dnsbl_exempt_db_example :
    load (codes "BLE") (db_h_ble plain) (write_dnsbl_exempt_db plain state.elist) [] ≡ some []
load-write_dnsbl_exempt_db_example = load-write_dnsbl_exempt_db plain state.elist []
