-- ===== src/Trace/Actions.antt =====
-- The actions of TRACE in src/os_trace.c: reading them from the parameters, what they do to a user,
-- and what is said at the end. `svs` is whether service_find("operserv") finds the service, and
-- `vhost` is me.vhost.
use atheme_contrib_modules.Trace.{Network, User, starts, tail}
use atheme_contrib_modules.Prelude.Int.{ℤ, ◌*ℤ◌, pos, ltb_ℤ}
use atheme_contrib_modules.Services.Tokens.{skip_spaces, word_of, next_word, after_word, nonempty}
use atheme_contrib_modules.Services.{Fault}
use atheme_contrib_modules.Services.Text.{Text, tolower, atoi, codes, strcasecmp_eq, is_digit}
use atheme_contrib_modules.Prelude.{
  ℕ, List, Option, Bool, none, ◌∷◌, not, some, false, if◌then◌else◌, [], ◌||◌, ◌==◌, true, ◌&&◌,
  length, ◌+◌,
}

pub data Action : Type 0 where
  print count : Action
  kill : Text → Action
  akill : ℤ → Text → Action

pub data Event : Type 0 where
  command_fail : Fault → Event
  matched_line : User → Event
  no_matches : Event
  matches_count : ℕ → Event
  kill_user : ℕ → Text → Event
  killed akilled : Text → Event
  kline_add : Text → Text → ℤ → Event
  log_trace : Text → Option Text → Event

pub data ActionName : Type 0 where
  a_print a_kill a_akill a_count : ActionName

-- trace_acttree, whose keys are found without regard to case.
unfoldable pub action_of : Text → Option ActionName
action_of s =
    if strcasecmp_eq (codes "PRINT") s
    then some a_print
    else if strcasecmp_eq (codes "KILL") s
    then some a_kill
    else if strcasecmp_eq (codes "AKILL") s
    then some a_akill
    else if strcasecmp_eq (codes "COUNT") s
    then some a_count
    else none

-- The text up to the next quotation mark, and what follows it.
unfoldable pub until_quote : Text → Option (Text × Text)
until_quote [] = none
until_quote (c ∷ s) =
    if c == 34
    then some ([], s)
    else elim (until_quote s) [ none ↦ none | some (r, rest) ↦ some (c ∷ r, rest) ]

-- The reason, and what is left. `start` never is where *args ends: the loop moves on by a character
-- at least, or *args becomes a null pointer. So the test of the two never fails a reason.
unfoldable pub reason_extract : Text → Option Text × Option Text
unfolding skip_spaces word_of after_word until_quote
reason_extract args =
    let s = skip_spaces args in
    if starts 34 s
    then elim (until_quote (tail s)) [
      | none ↦ (none, none)
      | some (reason, rest) ↦ (some reason, nonempty rest)
    ]
    else (some (word_of s), nonempty (after_word s))

pub data Flag : Type 0 where
  no_flag timed permanent : Flag

-- !T or !P, if a space or the end follows, and what is left.
unfoldable pub read_flag : Text → Flag × Text
unfolding tolower
read_flag (b ∷ k ∷ s) =
    if b == 33 && (tolower k == 116 || tolower k == 112) && (starts 32 s || length s == 0)
    then ((if tolower k == 116 then timed else permanent), tail s)
    else (no_flag, b ∷ k ∷ s)
read_flag s = (no_flag, s)

unfoldable pub skip_digits : Text → Text
skip_digits [] = []
skip_digits (c ∷ s) = if is_digit c then skip_digits s else c ∷ s

-- The duration in seconds, 0 if it cannot be read.
unfoldable pub read_duration : Text → ℤ
unfolding skip_digits atoi
read_duration s =
    let minutes = atoi s *ℤ pos 60 in
    elim (skip_digits s) [
      | [] ↦ minutes
      | c ∷ _ ↦
          if tolower c == 104
          then minutes *ℤ pos 60
          else if tolower c == 100
          then minutes *ℤ pos 1440
          else if tolower c == 119
          then minutes *ℤ pos 10080
          else pos 0
    ]

abbrev is_zero : ℤ → Bool
is_zero d = not (ltb_ℤ d (pos 0)) && not (ltb_ℤ (pos 0) d)

unfoldable pub trace_kill_prepare : Option Text → Option (Action × Option Text)
unfolding reason_extract
trace_kill_prepare none = none
trace_kill_prepare (some args) =
    let (reason, rest) = reason_extract args in
    elim reason [ none ↦ none | some r ↦ some (kill r, rest) ]

abbrev pub with_reason : ℤ → Text → Option (Action × Option Text)
with_reason duration args =
    let (reason, rest) = reason_extract args in
    elim reason [ none ↦ none | some r ↦ some (akill duration r, rest) ]

-- `kline_time` is config_options.kline_time.
unfoldable pub trace_akill_prepare : ℤ → Option Text → Option (Action × Option Text)
unfolding skip_spaces read_flag next_word read_duration reason_extract
trace_akill_prepare kline_time none = none
trace_akill_prepare kline_time (some args) =
    let (flag, s) = read_flag (skip_spaces args) in
    elim flag [
      | no_flag ↦ with_reason kline_time s
      | permanent ↦ with_reason (pos 0) s
      | timed ↦
          let (word, rest) = next_word s in
          elim word [
            | none ↦ none
            | some t ↦ elim rest [
              | none ↦ none
              | some r ↦ if is_zero (read_duration t) then none else with_reason (read_duration t) r
            ]
          ]
    ]

unfoldable pub prepare_action : ℤ → ActionName → Option Text → Option (Action × Option Text)
unfolding trace_kill_prepare trace_akill_prepare
prepare_action kline_time a_print args = some (print, args)
prepare_action kline_time a_count args = some (count, args)
prepare_action kline_time a_kill args = trace_kill_prepare args
prepare_action kline_time a_akill args = trace_akill_prepare kline_time args

module _ (n : Network) where
  -- The trace_action while the users are gone through, and the k-lines.
  pub record Act : Type 0 where
    pub matched : Bool
    pub matches : ℕ
    pub klines : n.K

  unfoldable pub trace_print_exec : User → Act → Act × List Event
  trace_print_exec u a =
      if u.internal then (a, []) else (record a { matched = true }, matched_line u ∷ [])

  unfoldable pub trace_count_exec : User → Act → Act × List Event
  trace_count_exec u a =
      if u.internal then (a, []) else (record a { matched = true; matches = a.matches + 1 }, [])

  -- Users that KILL and AKILL pass over.
  abbrev pub is_spared : User → Bool
  is_spared u = u.internal || u.ircop || (u.account && u.soper)

  unfoldable pub trace_kill_exec : Bool → Text → User → Act → Act × List Event
  trace_kill_exec svs reason u a =
      if is_spared u || not svs
      then (a, [])
      else (record a { matched = true }, kill_user u.uid reason ∷ killed u.nick ∷ [])

  abbrev pub is_localhost : Text → Bool
  is_localhost h = n.match h (codes "127.0.0.1") || n.match_ips h (codes "127.0.0.1")

  abbrev pub is_vhost : Option Text → Text → Bool
  is_vhost none h = false
  is_vhost (some v) h = n.match h v || n.match_ips h v

  unfoldable pub trace_akill_exec : Option Text → ℤ → Text → User → Act → Act × List Event
  trace_akill_exec vhost duration reason u a =
      if is_spared u
        || is_localhost u.host
        || is_vhost vhost u.host
        || n.kline_find a.klines (codes "*") u.host
      then (a, [])
      else (
        record a {
          matched = true;
          klines = n.kline_add (codes "*") u.host reason duration a.klines;
        },
        kline_add u.host reason duration ∷ akilled u.nick ∷ [],
      )

  unfoldable pub exec_action : Bool → Option Text → Action → User → Act → Act × List Event
  unfolding trace_print_exec trace_count_exec trace_kill_exec trace_akill_exec
  exec_action svs vhost print u a = trace_print_exec u a
  exec_action svs vhost count u a = trace_count_exec u a
  exec_action svs vhost (kill reason) u a = trace_kill_exec svs reason u a
  exec_action svs vhost (akill duration reason) u a = trace_akill_exec vhost duration reason u a

  -- The cleanup functions of the actions.
  unfoldable pub cleanup : Action → Act → Bool → List Event
  cleanup count a succeeded = if succeeded then matches_count a.matches ∷ [] else []
  cleanup _ a succeeded = if not a.matched && succeeded then no_matches ∷ [] else []
