-- ===== src/VhostOnReg.antt =====
-- src/gen_vhostonreg.c: the virtual host that an account gets when it is registered. The state of the
-- module is `counter`; the host is metadata of the account.
pub mod Hosts
mod Tests
use atheme_contrib_modules.Services.Metadata.{Metadata}
use atheme_contrib_modules.Services.Numbers.{print_uint}
use atheme_contrib_modules.Services.Text.{Text, is_digit, codes, strlcat}
use Prim.Native.Nat.{zero}
use mathlib.Core.Option.{none}
use atheme_contrib_modules.Prelude.{
  ℕ, List, Bool, replicate, if◌then◌else◌, ◌*◌, ◌||◌, false, ◌-◌, leb, ltb, Option, ◌%◌, ◌&&◌, ◌∷◌,
  length, ◌+◌, [], some, ◌==◌, suc, ◌++◌, take, map, none, true,
}

-- The logins are the users, by number.
pub record Account (M : Type 0) : Type 0 where
  pub name : Text
  pub metadata : M
  pub logins : List ℕ

pub data Event : Type 0 where
  cannot_be_used number_added : Event
  may_group : Text → Event
  user_identify : ℕ → Event

-- isalnum() in the C locale, or one of VALID_SPECIALS.
unfoldable pub is_valid : ℕ → Bool
unfolding is_digit
is_valid c = is_digit c || (leb 65 c && leb c 90) || (leb 97 c && leb c 122) || c == 45

-- The loop over the name: the characters that fit, whether another was passed over, and what is
-- left of the name.
copy_valid : ℕ → Text → Text × Bool × Text
unfolding is_valid
copy_valid room [] = ([], false, [])
copy_valid zero (c ∷ s) = ([], false, c ∷ s)
copy_valid (suc room) (c ∷ s) = elim (is_valid c) [
  | true ↦ let (kept, invalid, rest) = copy_valid room s in (c ∷ kept, invalid, rest)
  | false ↦ let (kept, _, rest) = copy_valid (suc room) s in (kept, true, rest)
]

-- %05d of a number that is not negative.
unfoldable pub pad_5 : ℕ → Text
unfolding print_uint
pad_5 n = replicate (5 - length (print_uint n)) 48 ++ print_uint n

abbrev pub next_counter : ℕ → ℕ
next_counter n = if leb 100000 (n + 1) then 0 else n + 1

abbrev pub usercloak : Text
usercloak = codes "private:usercloak"

-- `hostlen` is COMPAT_HOSTLEN, `nickserv` whether nicksvs.me is there, and `groups` whether nicknames
-- can be grouped.
module _ {M : Type 0} (d : Metadata M) (hostlen : ℕ) (nickserv groups : Bool) where
  open d use {metadata_add, metadata_find}

  numbered : Account M → ℕ → Text → ℕ → Text × ℕ × List Event
  unfolding pad_5
  numbered mu maxlen1 kept counter =
      let i = if ltb (maxlen1 - 6) (length kept) then maxlen1 - 6 else length kept in
      (
        take i kept ++ take (hostlen - i) (45 ∷ pad_5 counter),
        next_counter counter,
        if nickserv
            then cannot_be_used ∷ number_added ∷ (if groups then may_group mu.name ∷ [] else [])
            else [],
      )

  pub user_add_host : Text → Account M → ℕ → Account M × ℕ × List Event
  unfolding copy_valid numbered strlcat
  user_add_host suffix mu counter =
      let maxlen1 = hostlen - 1 - length suffix in
      if ltb maxlen1 9
      then (mu, counter, [])
      else let (kept, invalid, rest) = copy_valid maxlen1 mu.name in
        let (host, counter₁, events) =
          if invalid || ltb 0 (length rest)
          then numbered mu maxlen1 kept counter
          else (kept, counter, []) in
        let newhost = strlcat (strlcat host (codes ".") (hostlen + 1)) suffix (hostlen + 1) in
        (record mu { metadata = metadata_add usercloak newhost mu.metadata }, counter₁, events)

  -- `hidehostsuffix` is none where me.hidehostsuffix is a null pointer.
  pub handle_verify_register : Option Text → Account M → ℕ → Account M × ℕ × List Event
  unfolding user_add_host
  handle_verify_register none mu counter = (mu, counter, [])
  handle_verify_register (some suffix) mu counter =
      let (mu₁, counter₁, events) = user_add_host suffix mu counter in
      (mu₁, counter₁, events ++ map user_identify mu₁.logins)

  pub hook_user_identify : Option Text → Account M → ℕ → Account M × ℕ × List Event
  unfolding user_add_host
  hook_user_identify hidehostsuffix mu counter = elim (metadata_find usercloak mu.metadata) [
    | some _ ↦ (mu, counter, [])
    | none ↦ elim hidehostsuffix [
      | none ↦ (mu, counter, [])
      | some suffix ↦ user_add_host suffix mu counter
    ]
  ]

-- `counter` as mod_init() sets it.
pub first_counter : ℕ → ℕ
first_counter now = now * 256 % 100000
