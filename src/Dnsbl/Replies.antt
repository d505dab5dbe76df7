-- ===== src/Dnsbl/Replies.antt =====
-- What the reply to a query leads to.
use atheme_contrib_modules.Services.Metadata.{is_some}
use atheme_contrib_modules.Services.Text.{
  Text, strcasecmp_eq, codes, strcasecmp_eq_sym, strcasecmp_eq_trans,
}
use atheme_contrib_modules.Services.Keyed.{any, find, delete}
use atheme_contrib_modules.Prelude.{
  Bool, ℕ, true, false, List, some, ◌≡◌, none, ◌&&◌, not, if◌then◌else◌, ltb, ◌||◌, ◌+◌, ◌∷◌, [],
  arith, refl,
}
use atheme_contrib_modules.Dnsbl.{
  Event, dnsbl_hit, blacklist_dns_callback, os_cmd_set_dnsblaction, dnsbl_config_purge, kline_add,
  Query, User, Reply, Dnsbl, is_listing, Blacklist, is_at, is_query, log_garbage,
  destroy_blacklists, warn_at,
}

abbrev pub is_kline : Event → Bool
is_kline (kline_add user host duration) = true
is_kline _ = false

-- With an action set a hit always goes through. It k-lines the user exactly if the action is KLINE
-- (and none of the two tested before it) and no k-line was sent for the user; and a hit that k-lines
-- is followed by none that does.
pub dnsbl_hit_once :
    (action : Text) (u u' v : User) (host later : Text) (events again : List Event)
    → dnsbl_hit (some action) u (some host) ≡ some (u', events)
    → dnsbl_hit (some action) u' (some later) ≡ some (v, again)
    → (is_some (dnsbl_hit (some action) v (some later)) ≡ true)
      × (any is_kline events ≡ (
          strcasecmp_eq (codes "KLINE") action
          && not (strcasecmp_eq (codes "SNOOP") action || strcasecmp_eq (codes "NOTIFY") action)
          && not u.klinesent))
      × ((any is_kline events && any is_kline again) ≡ false)
unfolding dnsbl_hit any
dnsbl_hit_once action u u' v host later events again h k = ground arith

apart_tests :
    (strcasecmp_eq (codes "SNOOP") (codes "NONE") ≡ false)
    × (strcasecmp_eq (codes "KLINE") (codes "NONE") ≡ false)
    × (strcasecmp_eq (codes "NOTIFY") (codes "NONE") ≡ false)
unfolding strcasecmp_eq
apart_tests = (refl, refl, refl)

-- NONE is no other of the actions.
none_apart :
    (act : Text)
    → strcasecmp_eq (codes "NONE") act ≡ true
    → (strcasecmp_eq (codes "SNOOP") act
        || strcasecmp_eq (codes "KLINE") act
        || strcasecmp_eq (codes "NOTIFY") act)
      ≡ false
none_apart act h =
    let back = strcasecmp_eq_sym (codes "NONE") act h in
    ground (
      arith,
      back,
      apart_tests,
      strcasecmp_eq_trans (codes "SNOOP") act (codes "NONE"),
      strcasecmp_eq_trans (codes "KLINE") act (codes "NONE"),
      strcasecmp_eq_trans (codes "NOTIFY") act (codes "NONE"),
    )

-- A reply that lists the user while no action is set ends in a comparison with a null pointer. The
-- queries of a user outlive SET DNSBLACTION NONE.
pub callback_no_action :
    (now : ℕ) (q : Query) (r : Reply) (d : Dnsbl) (u : User) (act : Text)
    → is_listing r ≡ true
    → strcasecmp_eq (codes "NONE") act ≡ true
    → let unset = record d { action = (os_cmd_set_dnsblaction (some act) d.action).0 } in
      blacklist_dns_callback now q (some r) unset u ≡ none
unfolding blacklist_dns_callback os_cmd_set_dnsblaction dnsbl_hit
callback_no_action now q r d u act h k = ground (arith, none_apart act k)

destroy_blacklists-nil : (l : List Blacklist) → destroy_blacklists l ≡ []
unfolding destroy_blacklists
destroy_blacklists-nil [] = refl
destroy_blacklists-nil (bl ∷ l) = destroy_blacklists-nil l

-- After the configuration was purged every query that is still out holds a pointer to a blacklist
-- that was freed, and a reply that is no listing follows that pointer.
pub callback_after_purge :
    (now : ℕ) (q : Query) (r : Reply) (d : Dnsbl) (u : User)
    → is_listing r ≡ false
    → blacklist_dns_callback now q (some r) (dnsbl_config_purge d) u ≡ none
unfolding blacklist_dns_callback dnsbl_config_purge find
callback_after_purge now q r d u h = ground (arith, destroy_blacklists-nil d.blacklists)

find-warn_at :
    (a now : ℕ) (l : List Blacklist) (bl : Blacklist)
    → find (is_at a) l ≡ some bl
    → find (is_at a) (warn_at a now l) ≡ some (record bl { lastwarning = now })
unfolding find warn_at
find-warn_at a now [] bl h = cc
find-warn_at a now (x ∷ l) bl h = ground (arith, find-warn_at a now l bl)

-- A reply that is no listing takes its query off the user's list and does nothing else to the user;
-- its blacklist is warned about, and the time noted, if the last warning is more than an hour old.
pub callback_not_listed :
    (now : ℕ) (q : Query) (r : Reply) (d : Dnsbl) (u : User) (bl : Blacklist)
    → is_listing r ≡ false
    → find (is_at q.blacklist) d.blacklists ≡ some bl
    → let old = ltb (bl.lastwarning + 3600) now in
      let after = if old then warn_at q.blacklist now d.blacklists else d.blacklists in
      (blacklist_dns_callback now q (some r) d u
        ≡ some (
          record d { blacklists = after },
          record u { queries = delete (is_query q.query) u.queries },
          if old then log_garbage bl.host ∷ [] else [],
        ))
      × (find (is_at q.blacklist) after
          ≡ some (if old then record bl { lastwarning = now } else bl))
unfolding blacklist_dns_callback
callback_not_listed now q r d u bl h f = (
  rw (f, blacklist_dns_callback) (ground arith),
  ground (arith, find-warn_at q.blacklist now d.blacklists bl f),
)
