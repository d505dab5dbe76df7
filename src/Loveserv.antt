-- ===== src/Loveserv.antt =====
-- src/ircd_loveserv.c: commands that send a notice to another user. The module keeps no state but its
-- service.
pub mod Gifts
mod Tests
use atheme_contrib_modules.Services.Database.{◌>>=◌}
use mathlib.Core.Option.{none}
use atheme_contrib_modules.Services.Text.{Text}
use atheme_contrib_modules.Prelude.{List, ◌∷◌, Bool, [], Option, some, if◌then◌else◌, not, none}

pub data Gift : Type 0 where
  admirer rose chocolate candy hug kiss lovenote apology thankyou spank chocobo : Gift

-- The notices begin with the nickname of the sender, but for that of ADMIRER; three of them end in a
-- note.
pub data Event : Type 0 where
  insufficient_params syntax : Gift → Event
  no_such_person : Event
  told : Gift → Text → Event
  notice_admirer : Text → Event
  notice_gift : Gift → Text → Text → Event
  notice_note : Gift → Text → Text → Text → Event

abbrev pub usage : Gift → List Event
usage g = insufficient_params g ∷ syntax g ∷ []

-- The parameters are parv[0] and parv[1], `user_find_named` whether there is a user of that name, and
-- `su` is the nickname of si->su. The code follows si->su without a test: `none` is a null pointer.
module _ (user_find_named : Text → Bool) (su : Option Text) where
  ls_admirer : Option Text → Option (List Event)
  ls_admirer none = some (usage admirer)
  ls_admirer (some target) =
      if not (user_find_named target)
      then some (no_such_person ∷ [])
      else some (told admirer target ∷ notice_admirer target ∷ [])

  -- What the commands with a target have in common.
  give : Gift → Option Text → Option (List Event)
  give g none = some (usage g)
  give g (some target) =
      if not (user_find_named target)
      then some (no_such_person ∷ [])
      else do nick ← su; some (told g target ∷ notice_gift g target nick ∷ [])

  -- ... and those with a target and a note.
  give_note : Gift → Option Text → Option Text → Option (List Event)
  give_note g (some target) (some note) =
      if not (user_find_named target)
      then some (no_such_person ∷ [])
      else do nick ← su; some (told g target ∷ notice_note g target nick note ∷ [])
  give_note g _ _ = some (usage g)

  ls_rose : Option Text → Option (List Event)
  unfolding give
  ls_rose target = give rose target

  ls_chocolate : Option Text → Option (List Event)
  unfolding give
  ls_chocolate target = give chocolate target

  ls_candy : Option Text → Option (List Event)
  unfolding give
  ls_candy target = give candy target

  ls_hug : Option Text → Option (List Event)
  unfolding give
  ls_hug target = give hug target

  ls_kiss : Option Text → Option (List Event)
  unfolding give
  ls_kiss target = give kiss target

  ls_lovenote : Option Text → Option Text → Option (List Event)
  unfolding give_note
  ls_lovenote target text = give_note lovenote target text

  ls_apology : Option Text → Option Text → Option (List Event)
  unfolding give_note
  ls_apology target text = give_note apology target text

  ls_thankyou : Option Text → Option Text → Option (List Event)
  unfolding give_note
  ls_thankyou target text = give_note thankyou target text

  ls_spank : Option Text → Option (List Event)
  unfolding give
  ls_spank target = give spank target

  ls_chocobo : Option Text → Option (List Event)
  unfolding give
  ls_chocobo target = give chocobo target

  -- The command that is bound to the name of the gift.
  pub run_command : Gift → Option Text → Option Text → Option (List Event)
  unfolding ls_admirer ls_rose ls_chocolate ls_candy ls_hug ls_kiss ls_lovenote ls_apology
      ls_thankyou ls_spank ls_chocobo
  run_command admirer target text = ls_admirer target
  run_command rose target text = ls_rose target
  run_command chocolate target text = ls_chocolate target
  run_command candy target text = ls_candy target
  run_command hug target text = ls_hug target
  run_command kiss target text = ls_kiss target
  run_command lovenote target text = ls_lovenote target text
  run_command apology target text = ls_apology target text
  run_command thankyou target text = ls_thankyou target text
  run_command spank target text = ls_spank target
  run_command chocobo target text = ls_chocobo target
