-- ===== src/Ajoin.antt =====
-- src/ns_ajoin.c: the channels that NickServ joins a user to when he identifies. They are one text, with
-- commas between, in the account's metadata.
pub mod Channels
pub mod Items
pub mod Removal
mod Tests
use atheme_contrib_modules.Services.Keyed.{any}
use atheme_contrib_modules.Services.{Fault, badparams}
use atheme_contrib_modules.Services.Text.{Text, tolower, strcasecmp_eq, codes, strlcat}
use mathlib.Core.Option.{none}
use atheme_contrib_modules.Services.Metadata.{Metadata}
use atheme_contrib_modules.Prelude.{
  ℕ, List, Option, Bool, ◌∷◌, map, [], some, ◌++◌, if◌then◌else◌, none, ltb, length, take, ◌-◌,
  ◌==◌, get_or, not, suc, ◌+◌, ◌||◌, drop,
}

abbrev pub autojoin : Text
autojoin = codes "private:autojoin"

pub data Event : Type 0 where
  command_fail : Fault → Event
  list_start list_end cleared : Event
  list_line added removed already_listed not_listed too_many : Text → Event

abbrev pub syntaxerr : List Event
syntaxerr = command_fail badparams ∷ command_fail badparams ∷ []

abbrev pub is_comma : ℕ → Bool
is_comma c = c == 44

-- The text before the first separator, and the texts behind each of them.
unfoldable pub cut : (ℕ → Bool) → Text → Text × List Text
cut sep [] = ([], [])
cut sep (c ∷ s) = let (w, l) = cut sep s in if sep c then ([], w ∷ l) else (c ∷ w, l)

unfoldable pub nonempty_of : List Text → List Text
nonempty_of [] = []
nonempty_of ([] ∷ l) = nonempty_of l
nonempty_of ((c ∷ w) ∷ l) = (c ∷ w) ∷ nonempty_of l

-- What strtok() returns, call by call, with the same separators each time.
unfoldable pub tokens : (ℕ → Bool) → Text → List Text
unfolding cut nonempty_of
tokens sep s = let (w, l) = cut sep s in nonempty_of (w ∷ l)

-- The channels that are read from a copy in a buffer of 512 bytes.
unfoldable pub channels : Text → List Text
unfolding tokens
channels value = tokens is_comma (take 511 value)

-- The byte at an index, 0 at the end.
abbrev pub char_at : Text → ℕ → ℕ
char_at s j = get_or s j 0

-- The variables of the loop of DEL.
pub record Scan : Type 0 where
  pub rmlen : ℕ
  pub itempos : ℕ
  pub j : ℕ

unfoldable pub scan_char : Text → ℕ → ℕ → Scan → Scan
unfolding tolower
scan_char remove1 i c s =
    if not (s.rmlen == 0)
    then s
    else if tolower c == tolower (char_at remove1 s.j)
    then record {
      rmlen = if char_at remove1 (s.j + 1) == 0 then s.j + 1 else 0;
      itempos = if s.j == 0 then i else s.itempos;
      j = s.j + 1;
    }
    else record s { j = 0 }

-- The loop, from index i on.
unfoldable pub scan : Text → ℕ → Text → Scan → Scan
unfolding scan_char
scan remove1 i [] s = s
scan remove1 i (c ∷ list) s = scan remove1 (suc i) list (scan_char remove1 i c s)

abbrev pub scan_start : Scan
scan_start = record { rmlen = 0; itempos = 0; j = 0 }

-- The list without the item, none if nothing of it is left.
unfoldable pub removed_from : Text → Scan → Option Text
removed_from list s =
    if char_at list (s.itempos + s.rmlen) == 0
    then if ltb 0 s.itempos then some (take (s.itempos - 1) list) else none
    else some (take s.itempos list ++ drop (s.itempos + (s.rmlen + 1)) list)

module _ {M : Type 0} (md : Metadata M) where
  open md use {metadata_find, metadata_add, metadata_delete}

  -- The text is changed where it stands.
  abbrev pub store : Option Text → M → M
  store none m = metadata_delete autojoin m
  store (some value) m = metadata_add autojoin value m

  pub cmd_list : M → List Event
  unfolding channels
  cmd_list m =
      list_start
      ∷ (elim (metadata_find autojoin m) [ some value ↦ map list_line (channels value) | none ↦ [] ]
          ++ (list_end ∷ []))

  pub cmd_add : Option Text → M → M × List Event
  unfolding channels any strlcat strcasecmp_eq
  cmd_add none m = (m, syntaxerr)
  cmd_add (some p) m = elim (metadata_find autojoin m) [
    | none ↦ (metadata_add autojoin p m, added p ∷ [])
    | some value ↦
        if any (λ chan. strcasecmp_eq chan p) (channels value)
        then (m, already_listed p ∷ [])
        else if ltb 400 (length value + length p)
        then (m, too_many p ∷ [])
        else let buf = strlcat (strlcat (take 511 value) (codes ",") 512) p 512 in
          (metadata_add autojoin buf (metadata_delete autojoin m), added p ∷ [])
  ]

  pub cmd_clear : M → M × List Event
  cmd_clear m = (metadata_delete autojoin m, cleared ∷ [])

  pub cmd_del : Option Text → M → M × List Event
  unfolding scan removed_from
  cmd_del none m = (m, syntaxerr)
  cmd_del (some p) m = elim (metadata_find autojoin m) [
    | none ↦ (m, not_listed p ∷ [])
    | some list ↦
        let s = scan p 0 list scan_start in
        if not (char_at p s.j == 0)
        then (m, not_listed p ∷ [])
        else (store (removed_from list s) m, removed p ∷ [])
  ]

  pub ns_cmd_ajoin : Option Text → Option Text → M → M × List Event
  unfolding cmd_list cmd_add cmd_clear cmd_del strcasecmp_eq
  ns_cmd_ajoin none p m = (m, syntaxerr)
  ns_cmd_ajoin (some verb) p m =
      if strcasecmp_eq verb (codes "LIST")
      then (m, cmd_list m)
      else if strcasecmp_eq verb (codes "ADD")
      then cmd_add p m
      else if strcasecmp_eq verb (codes "CLEAR")
      then cmd_clear m
      else if strcasecmp_eq verb (codes "DEL")
      then cmd_del p m
      else (m, [])

-- The first channel, which ends at a space too, and what follows its separator.
abbrev is_space_or_comma : ℕ → Bool
is_space_or_comma c = c == 32 || c == 44

skip_separators : Text → Text
skip_separators [] = []
skip_separators (c ∷ s) = if is_space_or_comma c then skip_separators s else c ∷ s

first_channel : Text → Text × Text
first_channel [] = ([], [])
first_channel (c ∷ s) =
    let (w, rest) = first_channel s in if is_space_or_comma c then ([], s) else (c ∷ w, rest)

-- The loop over the channels: an empty one is the null pointer that ends it.
abbrev pub later_channels : Text → Text → List Text
later_channels [] rest = []
later_channels (c ∷ w) rest = (c ∷ w) ∷ tokens is_comma rest

-- The channels of the SVSJOIN messages.
pub joined_to : Text → List Text
unfolding first_channel skip_separators tokens
joined_to buf = let (chan, rest) = first_channel (skip_separators buf) in later_channels chan rest

module _ {M : Type 0} (md : Metadata M) where
  open md use {metadata_find}

  pub ajoin_on_identify : M → List Text
  unfolding joined_to
  ajoin_on_identify m = elim (metadata_find autojoin m) [
    | none ↦ []
    | some value ↦ joined_to (take 511 value)
  ]
