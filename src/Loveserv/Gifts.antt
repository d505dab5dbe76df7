-- ===== src/Loveserv/Gifts.antt =====
-- When a command ends, and what shows who sent it.
use atheme_contrib_modules.Services.Metadata.{is_some}
use atheme_contrib_modules.Prelude.{Bool, Option, true, false, ◌&&◌, some, ◌≡◌, not, arith, ◌||◌}
use atheme_contrib_modules.Services.Text.{Text}
use atheme_contrib_modules.Loveserv.{
  Gift, run_command, ls_admirer, ls_rose, admirer, lovenote, ls_chocolate, apology, ls_candy,
  thankyou, ls_hug, ls_kiss, ls_lovenote, ls_apology, ls_thankyou, ls_spank, ls_chocobo, give,
  give_note,
}
use mathlib.Core.Option.{none}

abbrev pub has_note : Gift → Bool
has_note lovenote = true
has_note apology = true
has_note thankyou = true
has_note _ = false

-- Whether the parameters that the command needs are given.
abbrev pub is_given : Gift → Option Text → Option Text → Bool
is_given g target text = is_some target && (not (has_note g) || is_some text)

abbrev pub is_there : (Text → Bool) → Option Text → Bool
is_there users none = false
is_there users (some target) = users target

abbrev pub is_admirer : Gift → Bool
is_admirer admirer = true
is_admirer _ = false

-- A command whose parameters are given, for a user who is there, follows a null pointer exactly if it is
-- not ADMIRER and no user sent it; any other ends.
pub run_command-ends :
    (users : Text → Bool) (su : Option Text) (g : Gift) (target text : Option Text)
    → is_some (run_command users su g target text)
      ≡ (is_some su || is_admirer g || not (is_given g target text) || not (is_there users target))
unfolding run_command ls_admirer ls_rose ls_chocolate ls_candy ls_hug ls_kiss ls_lovenote ls_apology
    ls_thankyou ls_spank ls_chocobo give give_note
run_command-ends users su g target text = ground arith

-- ADMIRER is the same whoever sends it.
pub admirer_anonymous :
    (users : Text → Bool) (su su₁ : Option Text) (target text : Option Text)
    → run_command users su admirer target text ≡ run_command users su₁ admirer target text
unfolding run_command ls_admirer
admirer_anonymous users su su₁ target text = ground arith
