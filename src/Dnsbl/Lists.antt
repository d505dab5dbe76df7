-- ===== src/Dnsbl/Lists.antt =====
-- The blacklists of the configuration.
use atheme_contrib_modules.Services.Text.{
  Text, strcasecmp_eq, strcasecmp_eq_trans, strcasecmp_eq_sym,
}
use atheme_contrib_modules.Dnsbl.{
  set_host, new_blacklist, Blacklist, find_blacklist, is_host, fresh_blacklist,
}
use atheme_contrib_modules.Services.Keyed.{any, any-append, find-some_of_any, find-none_of_any}
use atheme_contrib_modules.Prelude.{
  List, ℕ, ◌∷◌, take, ◌≡◌, ◌-◌, false, arith, true, ◌||◌, [], Bool-cases, ◌++◌, inl, refl, inr,
}

-- No two blacklists have the same host, up to case.
abbrev pub IsDistinct : List Blacklist → Type 0
IsDistinct [] = Unit {0}
IsDistinct (bl ∷ l) = (any (is_host bl.host) l ≡ false) × IsDistinct l

any-set_host :
    (size : ℕ) (name probe : Text) (l : List Blacklist)
    → take (size - 1) name ≡ name
    → any (is_host probe) (set_host size name l) ≡ any (is_host probe) l
unfolding any set_host
any-set_host size name probe [] t = refl
any-set_host size name probe (bl ∷ l) t = ground (
  arith,
  any-set_host size name probe l t,
  strcasecmp_eq_trans bl.host name probe,
  strcasecmp_eq_trans name bl.host probe,
  strcasecmp_eq_sym bl.host name,
)

any_congr :
    (name probe : Text) (l : List Blacklist)
    → strcasecmp_eq name probe ≡ true
    → any (is_host probe) l ≡ any (is_host name) l
unfolding any
any_congr name probe [] e = refl
any_congr name probe (bl ∷ l) e = ground (
  arith,
  any_congr name probe l e,
  strcasecmp_eq_trans bl.host name probe,
  strcasecmp_eq_trans bl.host probe name,
  strcasecmp_eq_sym name probe,
)

set_host-IsDistinct :
    (size : ℕ) (name : Text) (l : List Blacklist)
    → take (size - 1) name ≡ name
    → IsDistinct l
    → IsDistinct (set_host size name l)
unfolding set_host any
set_host-IsDistinct size name [] t d = tt
set_host-IsDistinct size name (bl ∷ l) t d = ground (
  arith,
  set_host-IsDistinct size name l t d.1,
  any-set_host size name bl.host l t,
  any_congr bl.host name l,
)

append-IsDistinct :
    (l : List Blacklist) (e : Blacklist)
    → IsDistinct l
    → any (is_host e.host) l ≡ false
    → IsDistinct (l ++ e ∷ [])
unfolding any
append-IsDistinct [] e d h = (refl, tt)
append-IsDistinct (bl ∷ l) e d h = ground (
  arith,
  append-IsDistinct l e d.1,
  any-append (is_host bl.host) l (e ∷ []),
  strcasecmp_eq_sym e.host bl.host,
)

-- A name that fits in the buffer is configured once, however often it is given: the hosts stay
-- distinct, and afterwards exactly that name is there in addition.
pub new_blacklist-IsDistinct :
    (size addr : ℕ) (name probe : Text) (l : List Blacklist)
    → take (size - 1) name ≡ name
    → IsDistinct l
    → IsDistinct (new_blacklist size addr name l)
      × (any (is_host probe) (new_blacklist size addr name l)
          ≡ (any (is_host probe) l || strcasecmp_eq name probe))
unfolding new_blacklist find_blacklist fresh_blacklist any
new_blacklist-IsDistinct size addr name probe l t d = elim (Bool-cases (any (is_host name) l)) [
  | inl e ↦
      let (bl, f, _) = find-some_of_any (is_host name) l e in
      rw (f, new_blacklist)
        (
          set_host-IsDistinct size name l t d,
          rw (any-set_host size name probe l t) (ground (arith, any_congr name probe l)),
        )
  | inr e ↦
      rw (find-none_of_any (is_host name) l e, new_blacklist)
        (
          append-IsDistinct l (fresh_blacklist size addr name) d (rw t e),
          ground (arith, any-append (is_host probe) l (fresh_blacklist size addr name ∷ [])),
        )
]
