-- ===== src/SaslBlacklist.antt =====
-- src/sasl_blacklist.c, the part for atheme from 7.3 on: who may log in, register, rename and log out,
-- by address and by mechanism. The state is restricted_hosts and permitted_mechanisms.
pub mod Hooks
mod Tests
use mathlib.Core.Option.{none}
use atheme_contrib_modules.Services.Registry.{Casemap}
use atheme_contrib_modules.Services.Keyed.{any}
use atheme_contrib_modules.Services.Text.{Text, strcmp_eq}
use atheme_contrib_modules.Prelude.{
  ℕ, List, Option, Bool, ◌∷◌, false, [], ◌+◌, if◌then◌else◌, some, none, ◌||◌, ◌==◌, ◌&&◌, not,
}

-- A mowgli_config_file_entry_t below the entry of the list: its name, and whether it has entries of its
-- own.
pub record ConfigEntry : Type 0 where
  pub varname : Text
  pub nested : Bool

pub record Blacklist : Type 0 where
  pub restricted_hosts : List Text
  pub permitted_mechanisms : List Text

-- A sasl_session; `mechptr` is the name of its mechanism, if it has one yet.
pub record Session : Type 0 where
  pub uid : Text
  pub host : Option Text
  pub ip : Option Text
  pub mechptr : Option Text

-- What the module reads of a user_t; `account` is the name of its account.
pub record User : Type 0 where
  pub nick : Text
  pub host : Option Text
  pub chost : Option Text
  pub vhost : Option Text
  pub ip : Option Text
  pub account : Option Text

-- A sourceinfo_t. That of SASL comes with its session.
pub record Source : Type 0 where
  pub smu : Option ℕ
  pub is_sasl : Bool
  pub sess : Option Session
  pub su : Option User

pub data Event : Type 0 where
  conf_report_warning : Event
  -- The nickname, and the account if it is shown.
  log_user : Text → Option Text → Event
  log_sasl : Text → Text → Event

-- The loop over the entries, behind the list that was cleared.
add_entries : List ConfigEntry → List Text × List Event
add_entries [] = ([], [])
add_entries (e ∷ l) =
    let (names, warnings) = add_entries l in
    if e.nested then (names, conf_report_warning ∷ warnings) else (e.varname ∷ names, warnings)

pub blacklist_process_configentry : List ConfigEntry → List Text → List Text × List Event
unfolding add_entries
blacklist_process_configentry [] names = (names, [])
blacklist_process_configentry (e ∷ l) names = add_entries (e ∷ l)

pub c_restricted_hosts : List ConfigEntry → Blacklist → Blacklist × List Event
unfolding blacklist_process_configentry
c_restricted_hosts l s =
    let (names, events) = blacklist_process_configentry l s.restricted_hosts in
    (record s { restricted_hosts = names }, events)

pub c_permitted_mechanisms : List ConfigEntry → Blacklist → Blacklist × List Event
unfolding blacklist_process_configentry
c_permitted_mechanisms l s =
    let (names, events) = blacklist_process_configentry l s.permitted_mechanisms in
    (record s { permitted_mechanisms = names }, events)

pub is_permitted_mechanism : Blacklist → Text → Bool
unfolding any strcmp_eq
is_permitted_mechanism s [] = false
is_permitted_mechanism s (d ∷ mech) = any (λ name. strcmp_eq name (d ∷ mech)) s.permitted_mechanisms

-- The log line about a user: the account is shown if it is none or has another name.
pub logged : Casemap → User → Event
logged c u = elim u.account [
  | none ↦ log_user u.nick (some [])
  | some a ↦ log_user u.nick (if c.same a u.nick then none else some a)
]

abbrev pub is_account : Option ℕ → ℕ → Bool
is_account none mu = false
is_account (some smu) mu = smu == mu

-- `match` is true where match() or match_ips() return 0.
module _ (c : Casemap) (match match_ips : Text → Text → Bool) where
  pub is_restricted_host : Blacklist → Option Text → Bool
  unfolding any
  is_restricted_host s none = false
  is_restricted_host s (some []) = false
  is_restricted_host s (some (d ∷ host)) =
      any (λ mask. match mask (d ∷ host) || match_ips mask (d ∷ host)) s.restricted_hosts

  pub is_restricted_session : Blacklist → Option Session → Bool
  unfolding is_restricted_host
  is_restricted_session s none = false
  is_restricted_session s (some sess) =
      is_restricted_host s sess.host || is_restricted_host s sess.ip

  pub is_restricted_user : Blacklist → Option User → Bool
  unfolding is_restricted_host
  is_restricted_user s none = false
  is_restricted_user s (some u) =
      is_restricted_host s u.host
      || is_restricted_host s u.chost
      || is_restricted_host s u.vhost
      || is_restricted_host s u.ip

  -- The test of a user that three hooks and the end of the fourth make: the answer is `refused` if the
  -- user is restricted.
  abbrev pub check_user : {A : Type 0} → Blacklist → Option User → A → A → A × List Event
  check_user s none refused answer = (answer, [])
  check_user s (some u) refused answer =
      if is_restricted_user s (some u) then (refused, logged c u ∷ []) else (answer, [])

  -- The branch of SASL. Without a session nobody is restricted.
  sasl_login : Blacklist → Text → Option Session → Bool → Bool × List Event
  unfolding is_restricted_session is_permitted_mechanism
  sasl_login s account none allowed = (allowed, [])
  sasl_login s account (some sess) allowed = elim sess.mechptr [
    | none ↦ (allowed, [])
    | some name ↦
        if is_restricted_session s (some sess) && not (is_permitted_mechanism s name)
        then (false, log_sasl account name ∷ [])
        else (allowed, [])
  ]

  -- `mu` is the account that is logged in to, named `account`; the result is `allowed`.
  pub blacklist_can_login : Blacklist → ℕ → Text → Option Source → Bool → Bool × List Event
  unfolding sasl_login is_restricted_user logged
  blacklist_can_login s mu account none allowed = (allowed, [])
  blacklist_can_login s mu account (some si) allowed =
      if is_account si.smu mu
      then (allowed, [])
      else if si.is_sasl
      then sasl_login s account si.sess allowed
      else check_user s si.su false allowed

  -- `approved` counts the refusals.
  pub blacklist_can_register : Blacklist → Option User → ℕ → ℕ × List Event
  unfolding is_restricted_user logged
  blacklist_can_register s su approved = check_user s su (approved + 1) approved

  pub blacklist_can_rename : Blacklist → Option User → Bool → Bool × List Event
  unfolding is_restricted_user logged
  blacklist_can_rename s su allowed = check_user s su false allowed

  pub blacklist_can_logout : Blacklist → Option User → Bool → Bool × List Event
  unfolding is_restricted_user logged
  blacklist_can_logout s u allowed = check_user s u false allowed
