-- ===== src/Dnsbl/Exempts.antt =====
-- The exempt addresses under DNSBLEXEMPT.
use mathlib.Core.Option.{none}
use atheme_contrib_modules.Services.Keyed.{any_of_find, find-some_of_any, delete_absent}
use atheme_contrib_modules.Dnsbl.{
  cmd_del, perform, os_cmd_dnsblexempt, Verb, Exempt, verb_of, ip_of, add, del, exempt_of, list,
  other,
}
use atheme_contrib_modules.Prelude.{ℕ, List, Option, ◌≡◌, arith, some, ◌||◌, ◌&&◌, not, none}
use atheme_contrib_modules.Services.Text.{Text}
use atheme_contrib_modules.Services.Registry.{
  Casemap, IsUnique, remove, listed, is_named, IsUnique-add, IsUnique-remove, listed-add_iff,
  listed-remove_iff,
}

module _ (c : Casemap) (name : Text) (now : ℕ) where
  cmd_del-remove : (ip : Text) (l : List Exempt) → (cmd_del c ip l).0 ≡ remove c ip_of ip l
  unfolding cmd_del
  cmd_del-remove ip l = ground (
    arith,
    any_of_find (is_named c ip_of ip) l,
    find-some_of_any (is_named c ip_of ip) l,
    delete_absent (is_named c ip_of ip) l,
  )

  perform-IsUnique :
      (v : Verb) (ip reason : Option Text) (l : List Exempt)
      → IsUnique c ip_of l
      → IsUnique c ip_of (perform c v name now ip reason l).0
  unfolding perform
  perform-IsUnique add (some ip) (some reason) l u =
      ground (arith, IsUnique-add c ip_of l (exempt_of name now ip reason) u)
  perform-IsUnique add (some ip) none l u = u
  perform-IsUnique add none reason l u = u
  perform-IsUnique del (some ip) reason l u =
      rw (cmd_del-remove ip l) (IsUnique-remove c ip_of ip l u)
  perform-IsUnique del none reason l u = u
  perform-IsUnique list ip reason l u = u
  perform-IsUnique other ip reason l u = u

  -- DNSBLEXEMPT keeps the exempt addresses distinct, whatever its parameters. On distinct addresses
  -- ADD makes exactly the given address exempt in addition, and DEL takes out that address and no
  -- other.
  pub os_cmd_dnsblexempt_lem :
      (add_word del_word ip reason probe : Text) (command : Option Text) (p q : Option Text)
      (l : List Exempt)
      → verb_of add_word ≡ add
      → verb_of del_word ≡ del
      → IsUnique c ip_of l
      → IsUnique c ip_of (os_cmd_dnsblexempt c name now command p q l).0
        × (listed c ip_of probe
              (os_cmd_dnsblexempt c name now (some add_word) (some ip) (some reason) l).0
            ≡ (listed c ip_of probe l || c.same ip probe))
        × (listed c ip_of probe (os_cmd_dnsblexempt c name now (some del_word) (some ip) q l).0
            ≡ (listed c ip_of probe l && not (c.same ip probe)))
  unfolding os_cmd_dnsblexempt
  os_cmd_dnsblexempt_lem add_word del_word ip reason probe command p q l va vd u = (
    keeps command,
    rw (va, perform)
        (ground (arith, listed-add_iff c ip_of probe l (exempt_of name now ip reason))),
    rw (vd, perform) (rw (cmd_del-remove ip l) (listed-remove_iff c ip_of probe ip l u)),
  )
    where
      keeps : (w : Option Text) → IsUnique c ip_of (os_cmd_dnsblexempt c name now w p q l).0
      keeps none = u
      keeps (some w) = perform-IsUnique (verb_of w) p q l u
