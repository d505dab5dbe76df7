-- ===== src/Goodmail/Tests.antt =====
-- The theorem about GOODMAIL at a concrete input.
use atheme_contrib_modules.Goodmail.Addresses.{admitted, add_del_admits}
use atheme_contrib_modules.Services.Keyed.{any}
use atheme_contrib_modules.Services.Text.{strcasecmp_eq, codes}
use atheme_contrib_modules.Goodmail.{Source, Goodmail, ns_cmd_goodmail}
use atheme_contrib_modules.Prelude.{List, true, some, ◌∷◌, [], ◌≡◌, ◌||◌, refl}
use atheme_contrib_modules.Services.Fixtures.{ascii}
use mathlib.Core.Option.{none}

abbrev admin : Source
admin = record { logged_in = true; name = codes "admin" }

abbrev one : List Goodmail
one = record { mail = codes "a@x"; mail_ts = 3; creator = codes "admin"; reason = codes "r" } ∷ []

add_del_admits_example :
    let l₁ =
      (ns_cmd_goodmail ascii admin 5
        (some (codes "add"))
        (some (codes "b@y"))
        (some (codes "why"))
        one).0 in
    let l₂ = (ns_cmd_goodmail ascii admin 7 (some (codes "Del")) (some (codes "b@y")) none l₁).0 in
    (admitted strcasecmp_eq (codes "acc") l₁ (codes "B@y") ≡ (
      admitted strcasecmp_eq (codes "acc") one (codes "B@y")
      || strcasecmp_eq (codes "b@y") (codes "B@y")))
    × (l₂ ≡ one)
    × (admitted strcasecmp_eq (codes "acc") l₂ (codes "B@y")
        ≡ admitted strcasecmp_eq (codes "acc") one (codes "B@y"))
unfolding strcasecmp_eq any
add_del_admits_example =
    add_del_admits ascii strcasecmp_eq (codes "acc") (codes "B@y") admin 5 7 (codes "add")
      (codes "Del") (codes "b@y") (codes "why") one refl refl refl refl
