-- ===== src/Dnsbl.antt =====
-- src/dnsbl.c, the part for atheme before 7.3: DNS blacklists, the addresses that are exempt from
-- them, and what is done to a user who is listed. The state is blacklist_list, dnsbl_elist and
-- `action`. A pointer to a blacklist is the number `addr`; smalloc() returns zeroed memory.
pub mod Exempts
pub mod Lists
pub mod Queries
pub mod Replies
pub mod Storage
mod Tests
use atheme_contrib_modules.Services.Numbers.{scan_digits, print_uint}
use atheme_contrib_modules.Services.Metadata.{is_some}
use Prim.Native.Nat.{zero}
use atheme_contrib_modules.Services.Database.{Backend, ◌>>=◌, Row, Field}
use atheme_contrib_modules.Services.Registry.{Casemap, is_named, remove, listed}
use atheme_contrib_modules.Services.{Fault, needmoreparams, badparams}
use atheme_contrib_modules.Services.Text.{Text, is_digit, strcasecmp_eq, codes}
use atheme_contrib_modules.Services.Keyed.{find, any, delete}
use atheme_contrib_modules.Prelude.{
  ℕ, List, Option, Bool, some, if◌then◌else◌, ◌&&◌, ◌==◌, ◌∷◌, none, [], suc, ◌++◌, take, ltb, ◌*◌,
  ◌/◌, ◌-◌, ◌+◌, ◌||◌, map, not, ◌%◌, zero, true,
}

pub record Blacklist : Type 0 where
  pub addr : ℕ
  pub status : ℕ
  pub refcount : ℕ
  pub host : Text
  pub hits : ℕ
  pub lastwarning : ℕ

pub record Exempt : Type 0 where
  pub ip : Text
  pub exempt_ts : ℕ
  pub creator : Text
  pub reason : Text

-- A struct BlacklistClient in the user's list of queries: its own address and its blacklist.
pub record Query : Type 0 where
  pub query : ℕ
  pub blacklist : ℕ

-- What the module reads and writes of a user_t; `internal` is is_internal_client().
pub record User : Type 0 where
  pub user : Text
  pub host : Text
  pub ip : Text
  pub internal : Bool
  pub klinesent : Bool
  pub queries : List Query

pub record Dnsbl : Type 0 where
  pub blacklists : List Blacklist
  pub elist : List Exempt
  pub action : Option Text

pub data Event : Type 0 where
  command_fail : Fault → Event
  action_set already_exempt exempt_added exempt_deleted exempt_missing scanned : Text → Event
  log_action log_exempt_del log_scan : Text → Event
  log_exempt_add : Text → Text → Event
  exempt_line : Exempt → Event
  end_of_list log_exempt_list : Event
  log_hit notice_hit log_garbage using_blacklist : Text → Event
  current_action : Option Text → Event
  kline_add : Text → Text → ℕ → Event
  gethost_byname : Text → ℕ → Event

abbrev more_params : List Event
more_params = command_fail needmoreparams ∷ command_fail needmoreparams ∷ []

pub os_cmd_set_dnsblaction : Option Text → Option Text → Option Text × List Event
os_cmd_set_dnsblaction none action = (action, more_params)
os_cmd_set_dnsblaction (some act) action =
    if strcasecmp_eq (codes "SNOOP") act
      || strcasecmp_eq (codes "KLINE") act
      || strcasecmp_eq (codes "NOTIFY") act
    then (some act, action_set act ∷ log_action act ∷ [])
    else if strcasecmp_eq (codes "NONE") act
    then (none, action_set act ∷ log_action act ∷ [])
    else (action, command_fail badparams ∷ [])

pub data Verb : Type 0 where
  add del list other : Verb

pub verb_of : Text → Verb
verb_of s =
    if strcasecmp_eq (codes "ADD") s
    then add
    else if strcasecmp_eq (codes "DEL") s
    then del
    else if strcasecmp_eq (codes "LIST") s
    then list
    else other

abbrev pub ip_of : Exempt → Text
ip_of de = de.ip

abbrev pub exempt_of : Text → ℕ → Text → Text → Exempt
exempt_of creator now ip reason = record {
  ip = ip;
  exempt_ts = now;
  creator = creator;
  reason = reason;
}

module _ (c : Casemap) where
  cmd_del : Text → List Exempt → List Exempt × List Event
  unfolding find
  cmd_del ip l = elim (find (is_named c ip_of ip) l) [
    | some de ↦ (remove c ip_of ip l, log_exempt_del de.ip ∷ exempt_deleted de.ip ∷ [])
    | none ↦ (l, exempt_missing ip ∷ [])
  ]

  -- `name` is get_source_name(), and `now` is CURRTIME.
  perform : Verb → Text → ℕ → Option Text → Option Text → List Exempt → List Exempt × List Event
  unfolding cmd_del any
  perform add name now (some ip) (some reason) l =
      if listed c ip_of ip l
      then (l, already_exempt ip ∷ [])
      else (l ++ exempt_of name now ip reason ∷ [], exempt_added ip ∷ log_exempt_add ip reason ∷ [])
  perform add name now _ _ l = (l, more_params)
  perform del name now (some ip) reason l = cmd_del ip l
  perform del name now none reason l = (l, more_params)
  perform list name now ip reason l = (l, map exempt_line l ++ end_of_list ∷ log_exempt_list ∷ [])
  perform other name now ip reason l = (l, more_params)

  pub os_cmd_dnsblexempt :
      Text → ℕ → Option Text → Option Text → Option Text → List Exempt → List Exempt × List Event
  unfolding verb_of perform
  os_cmd_dnsblexempt name now none ip reason l = (l, more_params)
  os_cmd_dnsblexempt name now (some command) ip reason l =
      perform (verb_of command) name now ip reason l

-- The chain of strcasecmp() tests on `action`. Comparing with a null pointer is a fault, `none`, and
-- so is reading the host of a blacklist that was freed, a `host` of `none`.
pub dnsbl_hit : Option Text → User → Option Text → Option (User × List Event)
dnsbl_hit none u host = none
dnsbl_hit (some action) u none =
    if strcasecmp_eq (codes "SNOOP") action
      || strcasecmp_eq (codes "NOTIFY") action
      || strcasecmp_eq (codes "KLINE") action && not u.klinesent
    then none
    else some (u, [])
dnsbl_hit (some action) u (some host) =
    if strcasecmp_eq (codes "SNOOP") action
    then some (u, log_hit host ∷ [])
    else if strcasecmp_eq (codes "NOTIFY") action
    then some (u, log_hit host ∷ notice_hit host ∷ [])
    else if strcasecmp_eq (codes "KLINE") action && not u.klinesent
    then some (
      record u { klinesent = true },
      log_hit host ∷ notice_hit host ∷ kline_add u.user u.host 86400 ∷ [],
    )
    else some (u, [])

-- What the callback reads of a reply: whether its address is of AF_INET, and its first byte.
pub record Reply : Type 0 where
  pub inet : Bool
  pub first : ℕ

abbrev pub is_listing : Reply → Bool
is_listing r = r.inet && r.first == 127

abbrev pub is_at : ℕ → Blacklist → Bool
is_at a bl = bl.addr == a

abbrev pub is_query : ℕ → Query → Bool
is_query a q = q.query == a

pub warn_at : ℕ → ℕ → List Blacklist → List Blacklist
warn_at a now [] = []
warn_at a now (bl ∷ l) =
    if is_at a bl then record bl { lastwarning = now } ∷ l else bl ∷ warn_at a now l

abbrev pub host_of : Option Blacklist → Option Text
host_of none = none
host_of (some bl) = some bl.host

-- The lookup of a blacklist by its address stands for following the pointer: `none`, a fault, if it
-- was freed.
pub blacklist_dns_callback :
    ℕ → Query → Option Reply → Dnsbl → User → Option (Dnsbl × User × List Event)
unfolding dnsbl_hit warn_at find delete
blacklist_dns_callback now q none d u =
    some (d, record u { queries = delete (is_query q.query) u.queries }, [])
blacklist_dns_callback now q (some r) d u =
    if is_listing r
    then (do
      (u', events) ← dnsbl_hit d.action u (host_of (find (is_at q.blacklist) d.blacklists))
      some (d, u', events))
    else elim (find (is_at q.blacklist) d.blacklists) [
      | none ↦ none
      | some bl ↦
          let garbage = ltb (bl.lastwarning + 3600) now in
          some (
            (if garbage then record d { blacklists = warn_at q.blacklist now d.blacklists } else d),
            record u { queries = delete (is_query q.query) u.queries },
            if garbage then log_garbage bl.host ∷ [] else [],
          )
    ]

-- One conversion needs a digit. A number that does not fit in an unsigned int is undefined in C, and is
-- returned here as it is.
scan_uint : Text → Option (ℕ × Text)
unfolding scan_digits
scan_uint [] = none
scan_uint (c ∷ s) = if is_digit c then some (scan_digits 0 (c ∷ s)) else none

scan_dot : Text → Option Text
scan_dot [] = none
scan_dot (c ∷ s) = if c == 46 then some s else none

-- sscanf(ip, "%u.%u.%u.%u", …); `none` leaves some of the four numbers without a value.
pub scan_ip : Text → Option (ℕ × ℕ × ℕ × ℕ)
unfolding scan_uint scan_dot
scan_ip s = do
  (a, s₁) ← scan_uint s
  s₂ ← scan_dot s₁
  (b, s₃) ← scan_uint s₂
  s₄ ← scan_dot s₃
  (c, s₅) ← scan_uint s₄
  s₆ ← scan_dot s₅
  (d, s₇) ← scan_uint s₆
  some (a, b, c, d)

abbrev pub dotted : Text → Text → Text
dotted s t = s ++ 46 ∷ t

-- snprintf() into a buffer of `size` bytes.
pub query_name : ℕ → ℕ × ℕ × ℕ × ℕ → Text → Text
unfolding print_uint
query_name size (a, b, c, d) host = take (size - 1) (
    dotted (print_uint d)
      (dotted (print_uint c) (dotted (print_uint b) (dotted (print_uint a) host))))

-- `size` is IRCD_RES_HOSTLEN + 1, and `query` where the BlacklistClient was allocated. An address
-- without four numbers is a read of numbers without a value, `none`.
pub initiate_blacklist_dnsquery : ℕ → ℕ → Blacklist → User → Option (Blacklist × User × List Event)
unfolding scan_ip query_name
initiate_blacklist_dnsquery size query bl u = elim (scan_ip u.ip) [
  | none ↦ none
  | some ip ↦ some (
    record bl { refcount = bl.refcount + 1 },
    record u { queries = u.queries ++ record { query = query; blacklist = bl.addr } ∷ [] },
    gethost_byname (query_name size ip bl.host) query ∷ [],
  )
]

-- The loop over blacklist_list; the addresses of the new queries are `query`, `query + 1`, …
pub lookup_blacklists : ℕ → ℕ → List Blacklist → User → Option (List Blacklist × User × List Event)
unfolding initiate_blacklist_dnsquery
lookup_blacklists size query [] u = some ([], u, [])
lookup_blacklists size query (bl ∷ l) u = do
  (bl', u', events) ← initiate_blacklist_dnsquery size query (record bl { status = 0 }) u
  (l', u'', events') ← lookup_blacklists size (query + 1) l u'
  some (bl' ∷ l', u'', events ++ events')

pub check_dnsbls : Casemap → ℕ → ℕ → Dnsbl → Option User → Option (Dnsbl × Option User × List Event)
unfolding lookup_blacklists any
check_dnsbls c size query d none = some (d, none, [])
check_dnsbls c size query d (some u) =
    if u.internal || not (is_some d.action) || listed c ip_of u.ip d.elist
    then some (d, some u, [])
    else do
      (l, u', events) ← lookup_blacklists size query d.blacklists u
      some (record d { blacklists = l }, some u', events)

-- `found` is what user_find_named() returns.
pub os_cmd_dnsblscan :
    ℕ → ℕ → Option Text → Option User → Dnsbl → Option (Dnsbl × Option User × List Event)
unfolding lookup_blacklists
os_cmd_dnsblscan size query none found d = some (d, found, more_params)
os_cmd_dnsblscan size query (some user) none d = some (d, none, command_fail badparams ∷ [])
os_cmd_dnsblscan size query (some user) (some u) d = do
  (l, u', events) ← lookup_blacklists size query d.blacklists u
  some (record d { blacklists = l }, some u', events ++ log_scan user ∷ scanned user ∷ [])

abbrev pub is_host : Text → Blacklist → Bool
is_host name bl = strcasecmp_eq bl.host name

pub find_blacklist : Text → List Blacklist → Option Blacklist
unfolding find
find_blacklist name l = find (is_host name) l

-- The writes of new_blacklist() to the entry that it found.
set_host : ℕ → Text → List Blacklist → List Blacklist
set_host size name [] = []
set_host size name (bl ∷ l) =
    if is_host name bl
    then record bl { host = take (size - 1) name; lastwarning = 0 } ∷ l
    else bl ∷ set_host size name l

fresh_blacklist : ℕ → ℕ → Text → Blacklist
fresh_blacklist size addr name = record {
  addr = addr;
  status = 0;
  refcount = 0;
  host = take (size - 1) name;
  hits = 0;
  lastwarning = 0;
}

-- `addr` is where a new entry is allocated.
pub new_blacklist : ℕ → ℕ → Text → List Blacklist → List Blacklist
unfolding find_blacklist set_host fresh_blacklist
new_blacklist size addr name l = elim (find_blacklist name l) [
  | some bl ↦ set_host size name l
  | none ↦ l ++ fresh_blacklist size addr name ∷ []
]

pub dnsbl_config_handler : ℕ → ℕ → List Text → List Blacklist → List Blacklist
unfolding new_blacklist
dnsbl_config_handler size addr [] l = l
dnsbl_config_handler size addr (line ∷ lines) l =
    dnsbl_config_handler size (addr + 1) lines (new_blacklist size addr line l)

-- Each entry is freed and unlinked.
pub destroy_blacklists : List Blacklist → List Blacklist
destroy_blacklists [] = []
destroy_blacklists (bl ∷ l) = destroy_blacklists l

pub dnsbl_config_purge : Dnsbl → Dnsbl
unfolding destroy_blacklists
dnsbl_config_purge d = record d { blacklists = destroy_blacklists d.blacklists }

pub osinfo_hook : Dnsbl → List Event
osinfo_hook d = current_action d.action ∷ map (λ bl. using_blacklist bl.host) d.blacklists

module _ (b : Backend) where
  open b use {Line, store, sread_word, sread_time}

  write_row : Exempt → Row Line
  write_row de = (
    codes "BW",
    store (
        Field.word de.ip
        ∷ Field.time de.exempt_ts
        ∷ Field.word de.creator
        ∷ Field.word de.reason
        ∷ []),
  )

  pub write_dnsbl_exempt_db : List Exempt → List (Row Line)
  unfolding write_row
  write_dnsbl_exempt_db l = map write_row l

  pub db_h_ble : Line → List Exempt → Option (List Exempt)
  db_h_ble line l = do
    (ip, line₁) ← sread_word line
    (exempt_ts, line₂) ← sread_time line₁
    (creator, line₃) ← sread_word line₂
    (reason, line₄) ← sread_word line₃
    let de : Exempt = record { ip = ip; exempt_ts = exempt_ts; creator = creator; reason = reason }
    some (l ++ de ∷ [])
