-- ===== src/SaslBlacklist/Hooks.antt =====
-- What the hooks decide.
use mathlib.Core.Option.{none}
use atheme_contrib_modules.Services.Keyed.{keep, any}
use atheme_contrib_modules.Services.Registry.{Casemap}
use atheme_contrib_modules.Services.Text.{Text}
use atheme_contrib_modules.SaslBlacklist.{
  ConfigEntry, add_entries, is_restricted_host, is_restricted_user, blacklist_can_login, Blacklist,
  blacklist_can_register, sasl_login, User, blacklist_can_rename, is_restricted_session,
  blacklist_can_logout, Source, c_restricted_hosts, Session, blacklist_process_configentry,
  is_account, is_permitted_mechanism,
}
use atheme_contrib_modules.Prelude.{
  ℕ, List, Option, Bool, map, false, not, ◌≡◌, some, ◌∷◌, ◌&&◌, none, arith, true, ◌||◌, [], refl,
  if◌then◌else◌, ◌+◌,
}

-- The names of the entries without entries of their own.
abbrev pub names_of : List ConfigEntry → List Text
names_of l = map (λ e. e.varname) (keep (λ e. not e.nested) l)

add_entries-names : (l : List ConfigEntry) → (add_entries l).0 ≡ names_of l
unfolding add_entries keep
add_entries-names [] = refl
add_entries-names (e ∷ l) = ground (arith, add_entries-names l)

-- An address that is there and not empty.
abbrev pub is_address : Option Text → Bool
is_address none = false
is_address (some []) = false
is_address (some (d ∷ s)) = true

module _ (c : Casemap) (match match_ips : Text → Text → Bool) where
  -- Some mask of the list matches the address.
  abbrev pub is_masked : List Text → Option Text → Bool
  is_masked masks none = false
  is_masked masks (some h) =
      is_address (some h) && any (λ mask. match mask h || match_ips mask h) masks

  host-masked :
      (s : Blacklist) (h : Option Text)
      → is_restricted_host c match match_ips s h ≡ is_masked s.restricted_hosts h
  unfolding is_restricted_host
  host-masked s none = refl
  host-masked s (some []) = refl
  host-masked s (some (d ∷ h)) = refl

  user-masked :
      (s : Blacklist) (u : User)
      → is_restricted_user c match match_ips s (some u) ≡ (
          is_masked s.restricted_hosts u.host
          || is_masked s.restricted_hosts u.chost
          || is_masked s.restricted_hosts u.vhost
          || is_masked s.restricted_hosts u.ip)
  unfolding is_restricted_user
  user-masked s u =
      rw (host-masked s u.host, host-masked s u.chost, host-masked s u.vhost, host-masked s u.ip)
        refl

  -- After the hosts were read from the configuration the same users are kept from logging in other
  -- than by SASL to another account, from registering, from renaming and from logging out: those with
  -- an address that one of the masks given there, without entries of its own, matches. A configuration
  -- without entries leaves the list as it was.
  pub hooks_agree :
      (e : ConfigEntry) (l : List ConfigEntry) (s : Blacklist) (u : User) (si : Source)
      (mu approved : ℕ) (account : Text)
      → si.is_sasl ≡ false
      → si.su ≡ some u
      → is_account si.smu mu ≡ false
      → let t = (c_restricted_hosts (e ∷ l) s).0 in
        let masks = names_of (e ∷ l) in
        let free = not (
          is_masked masks u.host
          || is_masked masks u.chost
          || is_masked masks u.vhost
          || is_masked masks u.ip) in
        ((blacklist_can_login c match match_ips t mu account (some si) true).0 ≡ free)
        × ((blacklist_can_register c match match_ips t (some u) approved).0
            ≡ (if free then approved else approved + 1))
        × ((blacklist_can_rename c match match_ips t (some u) true).0 ≡ free)
        × ((blacklist_can_logout c match match_ips t (some u) true).0 ≡ free)
        × ((c_restricted_hosts [] s).0 ≡ s)
  unfolding blacklist_can_login blacklist_can_register blacklist_can_rename blacklist_can_logout
      c_restricted_hosts blacklist_process_configentry
  hooks_agree e l s u si mu approved account k su a =
      let names = add_entries-names (e ∷ l) in
      let t : Blacklist = record s { restricted_hosts = (add_entries (e ∷ l)).0 } in
      let r = rw names at (user-masked t u) in
      (ground (arith, k, su, a, r), ground (arith, r), ground (arith, r), ground (arith, r), refl)

  -- A login by SASL to another account is refused exactly if the session has a mechanism that is not
  -- permitted, and its host or its address is restricted; a source that is logged in to the account,
  -- or no source, is never refused.
  pub sasl_login_lem :
      (s : Blacklist) (si : Source) (sess : Session) (mech account : Text) (mu : ℕ)
      → si.is_sasl ≡ true
      → si.sess ≡ some sess
      → sess.mechptr ≡ some mech
      → ((blacklist_can_login c match match_ips s mu account (some si) true).0 ≡ (
          is_account si.smu mu
          || is_permitted_mechanism s mech
          || not (is_masked s.restricted_hosts sess.host || is_masked s.restricted_hosts sess.ip)))
        × ((blacklist_can_login c match match_ips s mu account
              (some (record si { sess = some (record sess { mechptr = none }) }))
              true).0
            ≡ true)
        × ((blacklist_can_login c match match_ips s mu account none true).0 ≡ true)
  unfolding blacklist_can_login sasl_login is_restricted_session
  sasl_login_lem s si sess mech account mu k e m =
      let h = host-masked s sess.host in
      let i = host-masked s sess.ip in
      (
        rw (e, blacklist_can_login) (rw (m, sasl_login) (rw (h, i) (ground (arith, k)))),
        ground (arith, k),
        refl,
      )
