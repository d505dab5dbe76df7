-- ===== src/SaveChanmodes.antt =====
-- src/os_savechanmodes.c: the channel modes, topics and bans that SAVECHANMODES writes to a file and
-- LOADCHANMODES sets again. A pointer to a channel is a number. What atheme answers to the code
-- depends on the calls that were made, in order: it is a function of them.
pub mod Lines
pub mod Restored
pub mod Ends
mod Tests
use Prim.Native.Nat.{zero}
use atheme_contrib_modules.Services.Database.{◌>>=◌}
use atheme_contrib_modules.Services.Numbers.{print_uint, scan_digits}
use atheme_contrib_modules.Services.Text.{Text, is_space, codes, strcmp_eq}
use atheme_contrib_modules.Prelude.{
  ℕ, Option, List, Bool, some, [], ◌∷◌, if◌then◌else◌, none, ◌^◌, ◌++◌, map, ◌==◌, suc, ltb, get_or,
  zero, ◌-◌, length, ◌%◌,
}

-- `modes` is what channel_modes() gives for the channel.
pub record Channel : Type 0 where
  pub name : Text
  pub modes : Text
  pub topic : Option (Text × ℕ × Text)
  pub bans : List (ℕ × Text)

pub data Event : Type 0 where
  cannot_open log_save log_load wallops_dump wallops_restore saved restored remember_restart : Event
  join : Text → Event
  channel_mode : ℕ → Text → Event
  handle_topic : ℕ → Text → ℕ → Text → Event
  topic_sts : ℕ → Text → ℕ → ℕ → Text → Event
  modestack_mode_param : ℕ → ℕ → Text → Event
  chanban_add : ℕ → Text → ℕ → Event

abbrev or_else : {A : Type 0} → Option A → A → A
or_else none a = a
or_else (some b) a = b

-- The lines that fprintf() writes for a channel, without their ends.
unfoldable pub chan_line : Channel → Text
chan_line c = codes "chan " ++ c.name ++ 32 ∷ c.modes

unfoldable pub topic_line : Text → ℕ → Text → Text
unfolding print_uint
topic_line setter ts text = codes "topic " ++ setter ++ 32 ∷ print_uint ts ++ 32 ∷ text

unfoldable pub ban_line : ℕ × Text → Text
ban_line (type, mask) = codes "ban " ++ type ∷ 32 ∷ mask

abbrev pub topic_lines : Option (Text × ℕ × Text) → List Text
topic_lines none = []
topic_lines (some (setter, ts, text)) = topic_line setter ts text ∷ []

unfoldable pub lines_of : Channel → List Text
unfolding chan_line topic_line ban_line
lines_of c = chan_line c ∷ topic_lines c.topic ++ map ban_line c.bans

pub written : List Text → Text
written [] = []
written (l ∷ ls) = l ++ 10 ∷ written ls

abbrev pub all_lines : List Channel → List Text
all_lines [] = []
all_lines (c ∷ cs) = lines_of c ++ all_lines cs

-- The command, with the new text of the file; `none` where fopen() fails.
pub os_cmd_savechanmodes : Bool → List Channel → Option Text × List Event
unfolding lines_of written
os_cmd_savechanmodes opened chanlist =
    if opened
    then (some (written (all_lines chanlist)), log_save ∷ wallops_dump ∷ saved ∷ [])
    else (none, cannot_open ∷ [])

-- strtok() with one delimiter: what it passes over, the token, and what is left after that.
pass_over : ℕ → Text → Text
pass_over d [] = []
pass_over d (c ∷ s) = if c == d then pass_over d s else c ∷ s

until : ℕ → Text → Text
until d [] = []
until d (c ∷ s) = if c == d then [] else c ∷ until d s

after : ℕ → Text → Text
after d [] = []
after d (c ∷ s) = if c == d then s else after d s

strtok_rest : ℕ → Text → Option (Text × Text)
unfolding until after
strtok_rest d [] = none
strtok_rest d (c ∷ s) = some (until d (c ∷ s), after d (c ∷ s))

pub strtok : ℕ → Text → Option (Text × Text)
unfolding pass_over strtok_rest
strtok d s = strtok_rest d (pass_over d s)

-- fgets() of at most `n` characters, and what is left in the file.
fgets : ℕ → Text → Text × Text
fgets zero s = ([], s)
fgets (suc n) [] = ([], [])
fgets (suc n) (c ∷ s) = let (l, rest) = fgets n s in if c == 10 then (10 ∷ [], s) else (c ∷ l, rest)

-- ULONG_MAX + 1.
abbrev pub ulong : ℕ
ulong = 2 ^ 64

abbrev clamp : ℕ → ℕ
clamp n = if ltb n ulong then n else ulong - 1

abbrev negated : ℕ → ℕ
negated n = if ltb n ulong then (ulong - n) % ulong else ulong - 1

-- strtoul() with base 10.
pub strtoul : Text → ℕ
unfolding is_space scan_digits
strtoul [] = 0
strtoul (c ∷ s) =
    if is_space c
    then strtoul s
    else if c == 45
    then negated (scan_digits 0 s).0
    else if c == 43
    then clamp (scan_digits 0 s).0
    else clamp (scan_digits 0 (c ∷ s)).0

-- `strip` is atheme's, which is taken to leave a null pointer alone; `find` is channel_find(),
-- `has_topic` whether c->topic is there, and `topicts` is c->topicts, after the calls that are listed.
module _ (strip : Text → Text) (find : List Event → Text → Option ℕ)
    (has_topic : List Event → ℕ → Bool) (topicts : List Event → ℕ → ℕ) where
  unfoldable pub restore_channel : Text → Text → List Event → Option ℕ × List Event
  restore_channel name modes done =
      let joined = done ++ join name ∷ [] in
      elim (find joined name) [
        | some c ↦ (some c, joined ++ channel_mode c modes ∷ [])
        | none ↦ (none, joined)
      ]

  unfoldable pub restore_topic : ℕ → Text → ℕ → Text → List Event → List Event
  restore_topic c setter ts text done =
      if has_topic done c
      then done
      else done
        ++ (handle_topic c setter ts text ∷ topic_sts c setter ts (topicts done c) text ∷ [])

  unfoldable pub restore_ban : ℕ → ℕ → Text → List Event → List Event
  restore_ban c type mask done =
      done ++ (modestack_mode_param c type mask ∷ chanban_add c mask type ∷ [])

  -- The words of a line, each branch from the first of them on.
  load_chan : Text → Option ℕ × List Event → Option (Option ℕ × List Event)
  unfolding strtok restore_channel
  load_chan s (c, done) = do
    (name, s₁) ← strtok 32 s
    (modes, _) ← strtok 10 s₁
    some (restore_channel name modes done)

  load_topic : Text → Option ℕ × List Event → Option (Option ℕ × List Event)
  unfolding strtok restore_topic strtoul
  load_topic s (none, done) = none
  load_topic s (some c, done) = do
    (setter, s₁) ← strtok 32 s
    (tsstr, s₂) ← strtok 32 s₁
    (text, _) ← strtok 10 s₂
    some (some c, restore_topic c setter (strtoul tsstr) text done)

  load_ban : Text → Option ℕ × List Event → Option (Option ℕ × List Event)
  unfolding strtok restore_ban
  load_ban s (none, done) = none
  load_ban s (some c, done) = do
    (type, s₁) ← strtok 32 s
    (mask, _) ← strtok 10 s₁
    some (some c, restore_ban c (get_or type 0 0) mask done)

  -- What an item does; where the code goes on with the next line, the state stays as it is.
  load_item : Text → Text → Option ℕ × List Event → Option ℕ × List Event
  unfolding load_chan load_topic load_ban strcmp_eq
  load_item item s st =
      if get_or item 0 0 == 35
      then st
      else if strcmp_eq item (codes "chan")
      then or_else (load_chan s st) st
      else if strcmp_eq item (codes "topic")
      then or_else (load_topic s st) st
      else if strcmp_eq item (codes "ban")
      then or_else (load_ban s st) st
      else st

  -- The body of the loop.
  pub load_line : Text → Option ℕ × List Event → Option ℕ × List Event
  unfolding strtok load_item
  load_line buf st = elim (strtok 32 buf) [
    | none ↦ st
    | some (word, s) ↦ load_item (strip word) s st
  ]

  -- The loop over the file, with a buffer of 2048 bytes; `none` if the fuel is not enough.
  pub load_lines : ℕ → Text → Option ℕ × List Event → Option (Option ℕ × List Event)
  unfolding fgets load_line
  load_lines zero file st = none
  load_lines (suc fuel) [] st = some st
  load_lines (suc fuel) (c ∷ file) st =
      let (buf, rest) = fgets 2047 (c ∷ file) in load_lines fuel rest (load_line buf st)

  -- The command; `file` is none where fopen() fails.
  pub os_cmd_loadchanmodes : Option Text → Option (List Event)
  unfolding load_lines
  os_cmd_loadchanmodes none = some (cannot_open ∷ [])
  os_cmd_loadchanmodes (some file) = do
    (_, done) ← load_lines (suc (length file)) file (none, log_load ∷ wallops_restore ∷ [])
    some (done ++ (restored ∷ remember_restart ∷ []))
