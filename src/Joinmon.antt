-- ===== src/Joinmon.antt =====
-- src/os_joinmon.c: the patterns of nicknames whose joins are logged. The state is os_monlist.
pub mod Commands
pub mod Storage
pub mod Monitored
mod Tests
use atheme_contrib_modules.Prelude.{
  ℕ, Bool, true, false, Option, none, some, List, [], ◌∷◌, ◌++◌, map, if◌then◌else◌,
}
use atheme_contrib_modules.Services.{Fault, needmoreparams, badparams, noprivs}
use atheme_contrib_modules.Services.Text.{Text, codes, strcasecmp_eq}
use atheme_contrib_modules.Services.Keyed.{any, find}
use atheme_contrib_modules.Services.Registry.{Casemap, listed, is_named, remove}
use atheme_contrib_modules.Services.Database.{Field, word, time, str, Backend, Row, ◌>>=◌}

-- Where a string lives decides whether sfree() may be called on it.
pub data CString : Type 0 where
  heap : Text → CString
  static : Text → CString

abbrev pub text_of : CString → Text
text_of (heap s) = s
text_of (static s) = s

pub record Joinmon : Type 0 where
  pub user : Text
  pub mon_ts : ℕ
  pub creator : Text
  pub reason : CString

-- What the module reads of a sourceinfo_t: whether it is logged in, and get_source_name().
pub record Source : Type 0 where
  pub smu : Option Text
  pub name : Text

-- The replies and log lines, with the values that they show, and the strings that are freed.
pub data Event : Type 0 where
  command_fail : Fault → Event
  already_monitored now_monitored not_found : Text → Event
  log_add : Text → Option Text → Event
  log_del : Text → Event
  sfree : CString → Event
  list_line : Joinmon → Event
  end_of_list log_list : Event
  has_joined : Text → Text → Text → Event

pub data Verb : Type 0 where
  add del list other : Verb

-- The chain of strcasecmp() tests on the first parameter.
pub verb_of : Text → Verb
verb_of s =
    if strcasecmp_eq (codes "ADD") s
    then add
    else if strcasecmp_eq (codes "DEL") s
    then del
    else if strcasecmp_eq (codes "LIST") s
    then list
    else other

pub reason_of : Option Text → CString
reason_of (some r) = heap r
reason_of none = static (codes "None")

-- sfree() on the members and on the entry itself, which is on the heap.
frees : Joinmon → List Event
frees l = sfree (heap l.user) ∷ sfree (heap l.creator) ∷ sfree l.reason ∷ []

abbrev pub entry_of : Source → ℕ → Text → Option Text → Joinmon
entry_of si now pattern reason = record {
  user = pattern;
  mon_ts = now;
  creator = si.name;
  reason = reason_of reason;
}

module _ (c : Casemap) where
  cmd_add : Source → ℕ → Text → Option Text → List Joinmon → List Joinmon × List Event
  unfolding reason_of any
  cmd_add si now pattern reason monlist = elim si.smu [
    | none ↦ (monlist, command_fail noprivs ∷ [])
    | some _ ↦
        if listed c (λ l. l.user) pattern monlist
        then (monlist, already_monitored pattern ∷ [])
        else (
          monlist ++ entry_of si now pattern reason ∷ [],
          log_add pattern reason ∷ now_monitored pattern ∷ [],
        )
  ]

  pub cmd_del : Text → List Joinmon → List Joinmon × List Event
  unfolding frees find
  cmd_del pattern monlist = elim (find (is_named c (λ l. l.user) pattern) monlist) [
    | some l ↦ (remove c (λ l. l.user) pattern monlist, log_del l.user ∷ frees l)
    | none ↦ (monlist, not_found pattern ∷ [])
  ]

  cmd_list : List Joinmon → List Joinmon × List Event
  cmd_list monlist = (monlist, map list_line monlist ++ end_of_list ∷ log_list ∷ [])

  -- A missing pattern, which ADD and DEL test first.
  with_pattern :
      Option Text → List Joinmon → (Text → List Joinmon × List Event) → List Joinmon × List Event
  with_pattern none monlist run =
      (monlist, command_fail needmoreparams ∷ command_fail needmoreparams ∷ [])
  with_pattern (some pattern) monlist run = run pattern

  perform : Verb → Source → ℕ → Option Text → Option Text → List Joinmon → List Joinmon × List Event
  unfolding cmd_add cmd_del cmd_list with_pattern
  perform add si now pattern reason monlist =
      with_pattern pattern monlist λ p. cmd_add si now p reason monlist
  perform del si now pattern reason monlist = with_pattern pattern monlist λ p. cmd_del p monlist
  perform list si now pattern reason monlist = cmd_list monlist
  perform other si now pattern reason monlist = (monlist, command_fail badparams ∷ [])

  -- The parameters are parv[0], parv[1] and parv[2], and `now` is CURRTIME.
  pub os_cmd_joinmon :
      Source
      → ℕ
      → Option Text
      → Option Text
      → Option Text
      → List Joinmon
      → List Joinmon × List Event
  unfolding verb_of perform
  os_cmd_joinmon si now none pattern reason monlist =
      (monlist, command_fail needmoreparams ∷ command_fail needmoreparams ∷ [])
  os_cmd_joinmon si now (some action) pattern reason monlist =
      perform (verb_of action) si now pattern reason monlist

-- What the hook reads of a chanuser_t; `eob` is the flag SF_EOB of the user's server.
pub record Chanuser : Type 0 where
  pub nick : Text
  pub chan : Text
  pub eob : Bool

-- `glob mask name` is `!match(mask, name)`.
pub watch_user_joins : (Text → Text → Bool) → List Joinmon → Option Chanuser → List Event
unfolding find
watch_user_joins glob monlist none = []
watch_user_joins glob monlist (some cu) =
    let report : List Event = elim (find (λ l. glob l.user cu.nick) monlist) [
      | some l ↦ has_joined cu.nick l.user cu.chan ∷ []
      | none ↦ []
    ] in
    if cu.eob then report else []

module _ (b : Backend) where
  open b use {Line, store, sread_word, sread_time, sread_str}

  write_row : Joinmon → Row Line
  write_row l = (
    codes "JM",
    store (word l.user ∷ time l.mon_ts ∷ word l.creator ∷ str (text_of l.reason) ∷ []),
  )

  pub write_jmdb : List Joinmon → List (Row Line)
  write_jmdb monlist = map write_row monlist

  pub db_h_jm : Line → List Joinmon → Option (List Joinmon)
  db_h_jm line monlist = do
    (user, line₁) ← sread_word line
    (mon_ts, line₂) ← sread_time line₁
    (creator, line₃) ← sread_word line₂
    (reason, line₄) ← sread_str line₃
    let l : Joinmon = record {
      user = user;
      mon_ts = mon_ts;
      creator = creator;
      reason = heap reason;
    }
    some (monlist ++ l ∷ [])
