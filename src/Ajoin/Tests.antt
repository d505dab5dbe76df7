-- ===== src/Ajoin/Tests.antt =====
-- The theorems about AJOIN, and a removal, at concrete inputs.
use atheme_contrib_modules.Ajoin.Channels.{shown, add_joins}
use atheme_contrib_modules.Ajoin.Removal.{del-add}
use atheme_contrib_modules.Prelude.{◌∷◌, ◌≡◌, [], some, List, refl, arith, false, ◌++◌}
use atheme_contrib_modules.Services.Keyed.{any}
use atheme_contrib_modules.Services.Text.{codes, strlcat, strcasecmp_eq, Text}
use atheme_contrib_modules.Ajoin.{
  autojoin, cmd_del, joined_to, cmd_add, scan, tokens, removed_from, cmd_list, removed, channels,
  list_start, list_line, list_end, ajoin_on_identify,
}
use atheme_contrib_modules.Services.Fixtures.{Table, table}

abbrev account : Table
account = (autojoin, codes "#a,#b") ∷ []

abbrev longer : Table
longer = (autojoin, codes "#a,#b,#C") ∷ []

-- DEL compares without regard to where an item starts or ends, and takes a byte more away.
del_inside :
    (cmd_del table (some (codes "#a")) ((autojoin, codes "#ab,#a") ∷ [])).1
    ≡ removed (codes "#a") ∷ []
unfolding cmd_del scan removed_from strcasecmp_eq
del_inside = refl

del_inside_left :
    cmd_list table (cmd_del table (some (codes "#a")) ((autojoin, codes "#ab,#a") ∷ [])).0
    ≡ list_start ∷ list_line (codes "#a") ∷ list_end ∷ []
unfolding cmd_del scan removed_from cmd_list channels strcasecmp_eq
del_inside_left = refl

-- Behind the first channel, a space stands in the name.
joined_spaces : joined_to (codes "#a b,#c d") ≡ codes "#a" ∷ codes "b" ∷ codes "#c d" ∷ []
unfolding joined_to tokens
joined_spaces = refl

add_joins_example :
    (l : List Text) × (cmd_list table account ≡ shown l)
    × (any (λ chan. strcasecmp_eq chan (codes "#C")) l ≡ false)
    × (cmd_list table longer ≡ shown (l ++ codes "#C" ∷ []))
    × (ajoin_on_identify table longer ≡ l ++ codes "#C" ∷ [])
unfolding cmd_add any strlcat strcasecmp_eq
add_joins_example = add_joins table account longer (codes "#C") refl (omega arith) refl refl

del-add_example :
    (m₂ : Table) × (cmd_del table (some (codes "#C")) longer ≡ (m₂, removed (codes "#C") ∷ []))
    × (table.metadata_find autojoin m₂ ≡ table.metadata_find autojoin account)
    × (cmd_list table m₂ ≡ cmd_list table account)
unfolding cmd_add cmd_del scan any strlcat strcasecmp_eq
del-add_example = del-add table account longer (codes "#C") (omega arith) refl refl refl
