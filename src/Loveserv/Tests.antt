-- ===== src/Loveserv/Tests.antt =====
-- What the commands of LoveServ do at concrete inputs.
use atheme_contrib_modules.Loveserv.Gifts.{run_command-ends}
use atheme_contrib_modules.Loveserv.{run_command, rose}
use atheme_contrib_modules.Services.Metadata.{is_some}
use atheme_contrib_modules.Prelude.{Bool, some, ◌≡◌, false}
use atheme_contrib_modules.Services.Text.{Text, strcmp_eq, codes}
use mathlib.Core.Option.{none}

abbrev is_ann : Text → Bool
is_ann t = strcmp_eq t (codes "ann")

faults : is_some (run_command is_ann none rose (some (codes "ann")) none) ≡ false
unfolding strcmp_eq
faults = run_command-ends is_ann none rose (some (codes "ann")) none
