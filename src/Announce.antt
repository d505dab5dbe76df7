-- ===== src/Announce.antt =====
-- src/ircd_announceserv.c: AnnounceServ, the announcements that users ask for and that wait until staff
-- puts them out. The state is as_reqlist. HELP only prints fixed texts and is left out.
pub mod Pending
pub mod Commands
pub mod Storage
mod Tests
use mathlib.Core.Option.{none}
use atheme_contrib_modules.Services.Keyed.{find, any}
use atheme_contrib_modules.Services.Database.{Backend, ◌>>=◌, Row, Field}
use atheme_contrib_modules.Services.Registry.{Casemap, is_named, remove, listed}
use atheme_contrib_modules.Services.{Fault, needmoreparams, noprivs, badparams}
use atheme_contrib_modules.Services.Text.{Text, codes}
use atheme_contrib_modules.Prelude.{
  ℕ, List, Option, Bool, ◌∷◌, map, [], some, ◌++◌, if◌then◌else◌, none, ltb, length, take, ◌-◌,
}

pub record Request : Type 0 where
  pub nick : Text
  pub subject : Text
  pub announce_ts : ℕ
  pub creator : Text
  pub text : Text

pub data Event : Type 0 where
  command_fail : Fault → Event
  requested log_request : Text → Text → Text → Event
  notice_approved notice_rejected : Text → Event
  log_activate log_reject log_drop : Text → Event
  not_found : Text → Event
  global_notice : Text → Event
  waiting_line : Text → Text → ℕ → Text → Event
  end_of_list log_waiting canceled log_cancel : Event

abbrev pub nick_of : Request → Text
nick_of l = l.nick

abbrev pub more_params : List Event
more_params = command_fail needmoreparams ∷ command_fail needmoreparams ∷ []

-- `shown` is replace(), which puts spaces for the underscores of a subject, and `online` is the nick
-- that user_find_named() finds.
module _ (c : Casemap) (shown : Text → Text) where
  pub account_drop_request : Text → List Request → List Request × List Event
  unfolding find
  account_drop_request name reqs = elim (find (is_named c nick_of name) reqs) [
    | some l ↦ (remove c nick_of name reqs, log_drop l.nick ∷ [])
    | none ↦ (reqs, [])
  ]

  -- `size` is BUFSIZE, `restricted` whether the account of the source has private:restrict:setter, and
  -- `target` the name of that account.
  pub as_cmd_request :
      ℕ → ℕ → Bool → Text → Option Text → Option Text → List Request → List Request × List Event
  unfolding any
  as_cmd_request size now restricted target (some subject) (some text) reqs =
      if restricted
      then (reqs, command_fail noprivs ∷ [])
      else if listed c nick_of target reqs
      then (reqs, command_fail badparams ∷ [])
      else if ltb 35 (length subject)
      then (reqs, command_fail badparams ∷ [])
      else if ltb 450 (length text)
      then (reqs, command_fail badparams ∷ [])
      else let l : Request = record {
        nick = target;
        subject = subject;
        announce_ts = now;
        creator = target;
        text = take (size - 1) text;
      } in
        (
          reqs ++ l ∷ [],
          requested (shown subject) target l.text ∷ log_request (shown subject) target l.text ∷ [],
        )
  as_cmd_request size now restricted target _ _ reqs = (reqs, more_params)

  -- The announcement that goes out, in a buffer of `size` bytes.
  pub announcement : ℕ → Request → Text
  announcement size l =
      take (size - 1)
        (codes "[" ++ (shown l.subject ++ (codes " - " ++ (l.creator ++ (codes "] " ++ l.text)))))

  pub as_cmd_activate : ℕ → Option Text → Option Text → List Request → List Request × List Event
  unfolding find announcement
  as_cmd_activate size none online reqs = (reqs, more_params)
  as_cmd_activate size (some nick) online reqs = elim (find (is_named c nick_of nick) reqs) [
    | some l ↦ (
      remove c nick_of nick reqs,
      elim online [ some u ↦ notice_approved u ∷ [] | none ↦ [] ]
          ++ (log_activate nick ∷ global_notice (announcement size l) ∷ []),
    )
    | none ↦ (reqs, not_found nick ∷ [])
  ]

  pub as_cmd_reject : Option Text → Option Text → List Request → List Request × List Event
  unfolding find
  as_cmd_reject none online reqs = (reqs, more_params)
  as_cmd_reject (some nick) online reqs = elim (find (is_named c nick_of nick) reqs) [
    | some l ↦ (
      remove c nick_of nick reqs,
      elim online [ some u ↦ notice_rejected u ∷ [] | none ↦ [] ] ++ (log_reject nick ∷ []),
    )
    | none ↦ (reqs, not_found nick ∷ [])
  ]

  pub as_cmd_waiting : List Request → List Event
  as_cmd_waiting reqs =
      map (λ l. waiting_line l.nick (shown l.subject) l.announce_ts l.text) reqs
      ++ (end_of_list ∷ log_waiting ∷ [])

  pub as_cmd_cancel : Text → List Request → List Request × List Event
  unfolding find
  as_cmd_cancel target reqs = elim (find (is_named c nick_of target) reqs) [
    | some l ↦ (remove c nick_of target reqs, canceled ∷ log_cancel ∷ [])
    | none ↦ (reqs, command_fail badparams ∷ [])
  ]

module _ (b : Backend) where
  open b use {Line, store, sread_word, sread_time, sread_str}

  write_row : Request → Row Line
  write_row l = (
    codes "AR",
    store (
        Field.word l.nick
        ∷ Field.word l.subject
        ∷ Field.time l.announce_ts
        ∷ Field.word l.creator
        ∷ Field.str l.text
        ∷ []),
  )

  pub write_asreqdb : List Request → List (Row Line)
  unfolding write_row
  write_asreqdb reqs = map write_row reqs

  pub db_h_ar : Line → List Request → Option (List Request)
  db_h_ar line reqs = do
    (nick, line₁) ← sread_word line
    (subject, line₂) ← sread_word line₁
    (announce_ts, line₃) ← sread_time line₂
    (creator, line₄) ← sread_word line₃
    (text, line₅) ← sread_str line₄
    let l : Request = record {
      nick = nick;
      subject = subject;
      announce_ts = announce_ts;
      creator = creator;
      text = text;
    }
    some (reqs ++ l ∷ [])
