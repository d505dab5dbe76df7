-- ===== src/Userinfo/Tests.antt =====
-- The theorem about USERINFO at a concrete input.
use atheme_contrib_modules.Services.Fixtures.{table}
use atheme_contrib_modules.Prelude.{false, true, some, Option, ◌∷◌, [], ◌≡◌, refl}
use atheme_contrib_modules.Services.Text.{Text, strcmp_eq, codes}
use atheme_contrib_modules.Userinfo.{Channel, Joining, Access, msg}
use atheme_contrib_modules.Services.Keyed.{find}
use mathlib.Core.Option.{none}
use atheme_contrib_modules.Userinfo.Lines.{run, joins, add_delete-joins}

abbrev channel : Channel
channel = record {
  closed = false;
  auspex = false;
  aclview = true;
  flags = true;
  chanacs =
      record { at = 1; account = some (codes "joe"); akick = false; above = false }
      ∷ record { at = 2; account = some (codes "ann"); akick = false; above = true }
      ∷ [];
}

abbrev entry_of : Channel → Text → Option Access
entry_of mc mu =
    find (λ ca. elim ca.account [ none ↦ false | some name ↦ strcmp_eq name mu ]) mc.chanacs

abbrev joe : Joining
joe = record { eob = true; nick = codes "joe_"; account = some (codes "joe") }

abbrev ann : Joining
ann = record { eob = true; nick = codes "ann"; account = some (codes "ann") }

add_delete-joins_example :
    let act = run table (λ c. some channel) (λ t. some t) entry_of in
    let seen = joins table (λ c. some channel) (λ t. some t) entry_of in
    let added = (act (codes "#c" ∷ codes "joe" ∷ codes "hi" ∷ []) (λ i. [])).0 in
    let gone = (act (codes "#c" ∷ codes "joe" ∷ []) added).0 in
    (seen joe channel added ≡ msg (codes "joe_") (codes "hi") ∷ [])
    × (seen joe channel gone ≡ [])
    × (seen ann channel added ≡ seen ann channel (λ i. []))
    × (seen ann channel gone ≡ seen ann channel (λ i. []))
unfolding find strcmp_eq
add_delete-joins_example =
    add_delete-joins table (λ c. some channel) (λ t. some t) entry_of {chan = codes "#c"}
      {target = codes "joe"} {mv = codes "ann"} joe ann (λ i. []) refl refl refl refl refl refl refl
      refl refl
