-- ===== src/AkillNickList.antt =====
-- src/os_akillnicklist.c: users whose nick, user or real name stands in a file of names are k-lined.
pub mod Hits
mod Tests
use mathlib.Core.Option.{none}
use atheme_contrib_modules.Services.Text.{Text, codes}
use atheme_contrib_modules.Services.Registry.{Casemap}
use atheme_contrib_modules.Prelude.{
  ℕ, List, Option, Bool, ◌∷◌, map, [], some, ◌++◌, if◌then◌else◌, none, ltb, length, take, ◌-◌, ◌≡◌,
  ◌==◌, true, not, false, ◌||◌,
}

-- mowgli_patricia_t, with strcasecanon() for its keys: which keys are there.
pub record Patricia (T : Type 0) (c : Casemap) : Type 0 where
  pub create : T
  pub add : Text → T → T
  pub retrieve : Text → T → Bool
  pub retrieve-create : (k : Text) → retrieve k create ≡ false
  pub retrieve-add : (k j : Text) (t : T) → retrieve j (add k t) ≡ (c.same k j || retrieve j t)

-- The four settings of a NICKLISTS block.
pub data Setting : Type 0 where
  all nick user real : Setting

pub record Nicklists (T : Type 0) : Type 0 where
  pub akillalllist : T
  pub akillnicklist : T
  pub akilluserlist : T
  pub akillreallist : T

-- What the hook reads of a user_t.
pub record User : Type 0 where
  pub nick : Text
  pub user : Text
  pub host : Text
  pub gecos : Text
  pub internal : Bool
  pub exempt : Bool
  pub klinesent : Bool

pub data Event : Type 0 where
  log_kline : Text → Text → Text → Text → Event
  kline_add : Text → Text → Text → ℕ → Text → Event

-- The user name without the tilde of an unknown one.
abbrev pub known : Text → Text
known [] = []
known (c ∷ s) = if c == 126 then s else c ∷ s

-- `strip` is the function of atheme that takes the line ending off, in place.
module _ {T : Type 0} {c : Casemap} (p : Patricia T c) (strip : Text → Text) where
  open p use {create, add, retrieve}

  -- What is left of a line, if anything is.
  add_value : Text → T → T
  add_value [] list = list
  add_value (b ∷ value) list = add (b ∷ value) list

  -- The loop over what fgets() reads of the file.
  add_lines : List Text → T → T
  unfolding add_value
  add_lines [] list = list
  add_lines (line ∷ lines) list = add_lines lines (add_value (strip line) list)

  -- The file is none if it cannot be opened.
  add_contents_of_file_to_list : Option (List Text) → T → T
  unfolding add_lines
  add_contents_of_file_to_list none list = list
  add_contents_of_file_to_list (some lines) list = add_lines lines list

  -- The handlers of the four settings.
  pub nicklist_config_handler : Setting → Option (List Text) → Nicklists T → Nicklists T
  unfolding add_contents_of_file_to_list
  nicklist_config_handler all f s = record s {
    akillalllist = add_contents_of_file_to_list f s.akillalllist;
  }
  nicklist_config_handler nick f s = record s {
    akillnicklist = add_contents_of_file_to_list f s.akillnicklist;
  }
  nicklist_config_handler user f s = record s {
    akilluserlist = add_contents_of_file_to_list f s.akilluserlist;
  }
  nicklist_config_handler real f s = record s {
    akillreallist = add_contents_of_file_to_list f s.akillreallist;
  }

  pub created : Nicklists T
  created = record {
    akillalllist = create;
    akillnicklist = create;
    akilluserlist = create;
    akillreallist = create;
  }

  -- The chain of tests.
  pub appears : Nicklists T → User → Bool
  appears s u =
      let username = known u.user in
      if retrieve u.nick s.akillnicklist
      then true
      else if retrieve username s.akilluserlist
      then true
      else if retrieve u.gecos s.akillreallist
      then true
      else if retrieve u.nick s.akillalllist
      then true
      else if retrieve username s.akillalllist
      then true
      else retrieve u.gecos s.akillalllist

  -- The user is none if he is gone.
  pub aknl_nickhook : Nicklists T → Option User → Option User × List Event
  unfolding appears
  aknl_nickhook s none = (none, [])
  aknl_nickhook s (some u) =
      if u.internal
      then (some u, [])
      else if u.exempt
      then (some u, [])
      else if u.klinesent
      then (some u, [])
      else if not (appears s u)
      then (some u, [])
      else (
        some (record u { klinesent = true }),
        log_kline u.nick u.user u.host u.gecos
            ∷ kline_add u.user u.host (codes "Possible spambot") 86400 (codes "*")
            ∷ [],
      )
