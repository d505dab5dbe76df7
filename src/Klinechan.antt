-- ===== src/Klinechan.antt =====
-- src/os_klinechan.c: channels whose joining users are k-lined. The state of a channel is in its
-- metadata, under three keys.
pub mod Switch
pub mod Joins
mod Tests
use mathlib.Core.Option.{none}
use atheme_contrib_modules.Prelude.Int.{ℤ, pos}
use atheme_contrib_modules.Services.Metadata.{Metadata, is_some}
use atheme_contrib_modules.Services.{
  Fault, needmoreparams, badparams, noprivs, nosuch_target, nochange,
}
use atheme_contrib_modules.Services.Text.{Text, codes, atoi, strcasecmp_eq}
use atheme_contrib_modules.Prelude.{
  ℕ, List, Option, Bool, ◌∷◌, if◌then◌else◌, [], some, not, map, none, ◌||◌, ◌&&◌, ◌++◌, true,
  length, take,
}

-- A mychan_t; `log` is its flag CHAN_LOG.
pub record Mychan (M : Type 0) : Type 0 where
  pub name : Text
  pub log : Bool
  pub meta : M

-- What the module reads and writes of a user_t; `staff` is has_priv_user() for PRIV_JOIN_STAFFONLY,
-- and `exempt` is is_autokline_exempt().
pub record User : Type 0 where
  pub nick : Text
  pub host : Text
  pub ip : Option Text
  pub internal : Bool
  pub klinesent : Bool
  pub staff : Bool
  pub exempt : Bool

pub data Event : Type 0 where
  command_fail : Fault → Event
  warn_staff : Text → Text → Event
  wallops_exempt log_kline : Text → Text → Event
  kline_add : Text → Text → Event
  info_line : Text → Text → ℤ → Text → Event
  wallops_on log_on : Text → Text → Event
  wallops_off log_off klining no_longer_klining : Text → Event
  list_line : Text → Event
  log_list : Text → ℕ → Event
  list_end : ℕ → Text → Event

abbrev pub closer : Text
closer = codes "private:klinechan:closer"

abbrev pub reason_key : Text
reason_key = codes "private:klinechan:reason"

abbrev pub timestamp : Text
timestamp = codes "private:klinechan:timestamp"

abbrev pub refusal : Fault → List Event
refusal f = command_fail f ∷ command_fail f ∷ []

pub data Verb : Type 0 where
  turn_on turn_off other : Verb

pub verb_of : Text → Verb
verb_of s =
    if strcasecmp_eq s (codes "ON")
    then turn_on
    else if strcasecmp_eq s (codes "OFF")
    then turn_off
    else other

-- `int64_to_string` is atheme's, and `now` is CURRTIME.
module _ {M : Type 0} (md : Metadata M) (int64_to_string : ℕ → Text) where
  open md use {metadata_find, metadata_add, metadata_delete}

  -- `svs` is whether OperServ is there, `cu` the user of the chanuser_t, if there is one, and `mc`
  -- what mychan_from() returns for the channel, which is named `chan`.
  pub klinechan_check_join :
      Bool → Text → Option (Mychan M) → Option User → Option User × List Event
  klinechan_check_join svs chan mc none = (none, [])
  klinechan_check_join svs chan none (some u) = (some u, [])
  klinechan_check_join svs chan (some mc) (some u) =
      if not svs || u.internal || u.klinesent || not (is_some (metadata_find closer mc.meta))
      then (some u, [])
      else let khost : Text = elim u.ip [ some ip ↦ ip | none ↦ u.host ] in
        if u.staff
        then (some u, warn_staff u.nick chan ∷ [])
        else if u.exempt
        then (some u, wallops_exempt khost chan ∷ [])
        else (
          some (record u { klinesent = true }),
          log_kline khost chan ∷ kline_add khost (take 255 (codes "Joining " ++ chan)) ∷ [],
        )

  -- `auspex` is has_priv() for PRIV_CHAN_AUSPEX.
  pub klinechan_show_info : Bool → Mychan M → List Event
  unfolding atoi
  klinechan_show_info auspex mc = if not auspex then [] else elim (metadata_find closer mc.meta) [
    | none ↦ []
    | some setter ↦
        let reason : Text = elim (metadata_find reason_key mc.meta) [
          | some r ↦ r
          | none ↦ codes "unknown"
        ] in
        let ts : ℤ = elim (metadata_find timestamp mc.meta) [ some t ↦ atoi t | none ↦ pos 0 ] in
        info_line mc.name setter ts reason ∷ []
  ]

  cmd_on : ℕ → Text → Text → Option Text → Mychan M → Mychan M × List Event
  cmd_on now oper target none mc = (mc, refusal needmoreparams)
  cmd_on now oper target (some reason) mc =
      if mc.log
      then (mc, command_fail noprivs ∷ [])
      else if is_some (metadata_find closer mc.meta)
      then (mc, command_fail nochange ∷ [])
      else (
        record mc {
          meta =
              metadata_add timestamp (int64_to_string now)
                (metadata_add reason_key reason (metadata_add closer oper mc.meta));
        },
        wallops_on target reason ∷ log_on target reason ∷ klining target ∷ [],
      )

  cmd_off : Text → Mychan M → Mychan M × List Event
  cmd_off target mc =
      if not (is_some (metadata_find closer mc.meta)) then (mc, command_fail nochange ∷ []) else (
        record mc {
          meta =
              metadata_delete timestamp
                (metadata_delete reason_key (metadata_delete closer mc.meta));
        },
        wallops_off target ∷ log_off target ∷ no_longer_klining target ∷ [],
      )

  perform : Verb → ℕ → Text → Text → Option Text → Mychan M → Mychan M × List Event
  unfolding cmd_on cmd_off
  perform turn_on now oper target reason mc = cmd_on now oper target reason mc
  perform turn_off now oper target reason mc = cmd_off target mc
  perform other now oper target reason mc = (mc, refusal badparams)

  -- `oper` is si->su->nick, and `mc` what mychan_find() returns for the target.
  pub os_cmd_klinechan :
      ℕ
      → Text
      → Option Text
      → Option Text
      → Option Text
      → Option (Mychan M)
      → Option (Mychan M) × List Event
  unfolding verb_of perform
  os_cmd_klinechan now oper (some target) (some action) reason none =
      (none, command_fail nosuch_target ∷ [])
  os_cmd_klinechan now oper (some target) (some action) reason (some mc) =
      let (mc', events) = perform (verb_of action) now oper target reason mc in (some mc', events)
  os_cmd_klinechan now oper _ _ reason mc = (mc, refusal needmoreparams)

  -- The channels of the loop that are listed. `match` is true on a match.
  listing : (Text → Text → Bool) → Text → List (Mychan M) → List (Mychan M)
  listing match pattern [] = []
  listing match pattern (mc ∷ mclist) =
      let rest = listing match pattern mclist in
      if is_some (metadata_find closer mc.meta) && match pattern mc.name then mc ∷ rest else rest

  pub os_cmd_listklinechans : (Text → Text → Bool) → Option Text → List (Mychan M) → List Event
  unfolding listing
  os_cmd_listklinechans match param mclist =
      let pattern : Text = elim param [ some p ↦ p | none ↦ codes "*" ] in
      let l = listing match pattern mclist in
      map (λ mc. list_line mc.name) l
      ++ (log_list pattern (length l) ∷ list_end (length l) pattern ∷ [])
