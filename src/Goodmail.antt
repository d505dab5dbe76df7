-- ===== src/Goodmail.antt =====
-- src/ns_goodmail.c: the masks of mail addresses that may be registered with. The state is ns_maillist.
pub mod Addresses
pub mod Storage
mod Tests
use mathlib.Core.Option.{none}
use atheme_contrib_modules.Services.Text.{Text, codes, strcasecmp_eq}
use atheme_contrib_modules.Services.{Fault, needmoreparams, noprivs, badparams}
use atheme_contrib_modules.Services.Registry.{Casemap, is_named, remove, listed}
use atheme_contrib_modules.Services.Keyed.{any, find}
use atheme_contrib_modules.Services.Database.{Backend, ◌>>=◌, Row, Field}
use atheme_contrib_modules.Prelude.{
  ℕ, List, Option, Bool, ◌∷◌, map, [], some, ◌++◌, if◌then◌else◌, none, true, not,
}

pub record Goodmail : Type 0 where
  pub mail : Text
  pub mail_ts : ℕ
  pub creator : Text
  pub reason : Text

-- What the module reads of a sourceinfo_t: whether it is logged in, and get_source_name().
pub record Source : Type 0 where
  pub logged_in : Bool
  pub name : Text

pub data Event : Type 0 where
  command_fail : Fault → Event
  already_whitelisted whitelisted not_found log_del : Text → Event
  log_add : Text → Text → Event
  mail_line : Text → Text → Text → ℕ → Event
  end_of_list log_list : Event
  log_register : Text → Text → Event

abbrev pub mail_of : Goodmail → Text
mail_of l = l.mail

abbrev pub more_params : List Event
more_params = command_fail needmoreparams ∷ command_fail needmoreparams ∷ []

-- `match` is true where match() returns 0, and `approved` is whether a hook before has refused.
pub check_registration :
    (Text → Text → Bool) → Text → Text → List Goodmail → Bool → Bool × List Event
unfolding any
check_registration match account email ns_maillist approved =
    if approved
    then (approved, [])
    else if any (λ l. match l.mail email) ns_maillist
    then (approved, [])
    else (true, command_fail noprivs ∷ log_register account email ∷ [])

module _ (c : Casemap) where
  cmd_add : Source → ℕ → Option Text → Option Text → List Goodmail → List Goodmail × List Event
  unfolding any
  cmd_add si now (some email) (some reason) l =
      if not si.logged_in
      then (l, command_fail noprivs ∷ [])
      else if listed c mail_of email l
      then (l, already_whitelisted email ∷ [])
      else let e : Goodmail = record {
        mail = email;
        mail_ts = now;
        creator = si.name;
        reason = reason;
      } in
        (l ++ e ∷ [], log_add email reason ∷ whitelisted email ∷ [])
  cmd_add si now _ _ l = (l, more_params)

  -- The entry is unlinked and freed.
  cmd_del : Option Text → List Goodmail → List Goodmail × List Event
  unfolding find
  cmd_del none l = (l, more_params)
  cmd_del (some email) l = elim (find (is_named c mail_of email) l) [
    | some e ↦ (remove c mail_of email l, log_del e.mail ∷ [])
    | none ↦ (l, not_found email ∷ [])
  ]

  cmd_list : List Goodmail → List Event
  cmd_list l =
      map (λ e. mail_line e.mail e.reason e.creator e.mail_ts) l ++ (end_of_list ∷ log_list ∷ [])

  -- The command, called with the text of the action, the address and the reason.
  pub ns_cmd_goodmail :
      Source
      → ℕ
      → Option Text
      → Option Text
      → Option Text
      → List Goodmail
      → List Goodmail × List Event
  unfolding cmd_add cmd_del cmd_list strcasecmp_eq
  ns_cmd_goodmail si now none email reason l = (l, more_params)
  ns_cmd_goodmail si now (some action) email reason l =
      if strcasecmp_eq (codes "ADD") action
      then cmd_add si now email reason l
      else if strcasecmp_eq (codes "DEL") action
      then cmd_del email l
      else if strcasecmp_eq (codes "LIST") action
      then (l, cmd_list l)
      else (l, command_fail badparams ∷ [])

module _ (b : Backend) where
  open b use {Line, store, sread_word, sread_time, sread_str}

  write_row : Goodmail → Row Line
  write_row l = (
    codes "GE",
    store
        (Field.word l.mail ∷ Field.time l.mail_ts ∷ Field.word l.creator ∷ Field.str l.reason ∷ []),
  )

  pub write_gedb : List Goodmail → List (Row Line)
  unfolding write_row
  write_gedb l = map write_row l

  pub db_h_ge : Line → List Goodmail → Option (List Goodmail)
  db_h_ge line l = do
    (mail, line₁) ← sread_word line
    (mail_ts, line₂) ← sread_time line₁
    (creator, line₃) ← sread_word line₂
    (reason, line₄) ← sread_str line₃
    let e : Goodmail = record { mail = mail; mail_ts = mail_ts; creator = creator; reason = reason }
    some (l ++ e ∷ [])
