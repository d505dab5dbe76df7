-- ===== src/Trace/Tests.antt =====
-- The theorems about TRACE at concrete inputs.
use atheme_contrib_modules.Trace.Blanks.{is_faulty, is_ok, trace_blank}
use atheme_contrib_modules.Trace.Commands.{trace_kills, trace_finds}
use atheme_contrib_modules.Prelude.Int.{pos}
use atheme_contrib_modules.Trace.Written.{read-print_criteria, s_channel, s_numchan}
use atheme_contrib_modules.Trace.Reasons.{reason_extract_lem}
use atheme_contrib_modules.Services.Metadata.{is_some}
use atheme_contrib_modules.Trace.Run.{read_criteria, os_cmd_trace}
use atheme_contrib_modules.Trace.Actions.{
  reason_extract, action_of, until_quote, matched_line, kill_user, log_trace, killed, matches_count,
}
use atheme_contrib_modules.Services.Tokens.{skip_spaces, next_word, word_of, after_word}
use atheme_contrib_modules.Trace.Criteria.{is_out_of_fuel, read_criteria-returns}
use atheme_contrib_modules.Services.Text.{
  Text, strcmp_eq, codes, atoi, strcmp_eq_refl, strcasecmp_eq,
}
use atheme_contrib_modules.Trace.{
  Network, User, Query, channel, prepare, exec, c_nickage, numchan, trace_channel_exec, ok,
  trace_numchan_exec, compares, criterion_of, trace_channel_prepare, trace_numchan_prepare,
  read_comparison_operator,
}
use atheme_contrib_modules.Services.Keyed.{any, keep}
use atheme_contrib_modules.Prelude.{
  ℕ, List, Bool, String, some, false, true, none, ◌∷◌, ◌≡◌, arith, [], ◌==◌, refl, length, ◌≤◌,
}

hosts-add : (host : Text) (k : List Text) → any (λ h. strcmp_eq h host) (host ∷ k) ≡ true
unfolding any
hosts-add host k = ground (arith, strcmp_eq_refl host)

nothing_left : (s r : Text) → none ≡ some r → length r ≤ length s
nothing_left s r h = cc

-- A network without regular expressions, where masks match what they are equal to, and the k-lines
-- are the hosts.
abbrev toy : Network
toy = record {
  Regex = ℕ;
  Channel = ℕ;
  K = List Text;
  regex_extract = λ s. (some s, none, 0);
  regex_create = λ p f. none;
  regex_match = λ r s. false;
  server_find = λ s. some 1;
  channel_find = λ s. some 7;
  chanuser_find = λ c u. u == 2;
  match = strcmp_eq;
  match_ips = strcmp_eq;
  kline_find = λ k user host. any (λ h. strcmp_eq h host) k;
  kline_add = λ user host reason duration k. host ∷ k;
  extract_shorter = nothing_left;
  find-add = λ user host reason duration k. hosts-add host k;
}

abbrev user_of : ℕ → String → Bool → Bool → User
user_of uid nick ircop internal = record {
  uid = uid;
  nick = codes nick;
  user = codes "u";
  host = codes "h";
  gecos = codes "g";
  server = 1;
  ts = 90;
  channels = 3;
  account = false;
  soper = false;
  ircop = ircop;
  internal = internal;
}

abbrev alice : User
alice = user_of 2 "alice" false false

abbrev oper : User
oper = user_of 2 "oper" true false

abbrev bob : User
bob = user_of 3 "bob" false false

abbrev everyone : List User
everyone = user_of 2 "ChanServ" false true ∷ alice ∷ bob ∷ oper ∷ []

abbrev criteria : Text
criteria = codes "CHANNEL #a NUMCHAN >=3"

abbrev wanted : List (Query toy)
wanted = channel (some 7) ∷ numchan 4 3 ∷ []

trace_finds_example :
    (os_cmd_trace toy 100 true none (pos 60) everyone (some (codes "print")) (some criteria) []
      ≡ ok (
        [],
        matched_line alice ∷ matched_line oper ∷ log_trace (codes "print") (some criteria) ∷ [],
      ))
    × (os_cmd_trace toy 100 true none (pos 60) everyone (some (codes "COUNT")) (some criteria) []
        ≡ ok ([], matches_count 2 ∷ log_trace (codes "COUNT") (some criteria) ∷ []))
unfolding any keep exec trace_channel_exec trace_numchan_exec compares action_of strcasecmp_eq
    read_criteria next_word skip_spaces word_of after_word criterion_of prepare
    trace_channel_prepare trace_numchan_prepare read_comparison_operator atoi
trace_finds_example =
    trace_finds toy 100 true none (pos 60) everyone (codes "print") (codes "COUNT") criteria wanted
      [] refl refl refl

trace_kills_example :
    os_cmd_trace toy 100 true none
      (pos 60)
      everyone
      (some (codes "KILL"))
      (some (codes "\"bad bot\" CHANNEL #a NUMCHAN >=3"))
      []
    ≡ ok (
      [],
      kill_user 2 (codes "bad bot")
          ∷ killed (codes "alice")
          ∷ log_trace (codes "KILL") (some (codes " CHANNEL #a NUMCHAN >=3"))
          ∷ [],
    )
unfolding any keep exec trace_channel_exec trace_numchan_exec compares action_of strcasecmp_eq
    read_criteria next_word skip_spaces word_of after_word criterion_of prepare
    trace_channel_prepare trace_numchan_prepare read_comparison_operator atoi reason_extract
    until_quote
trace_kills_example =
    trace_kills toy 100 true none (pos 60) everyone (codes "KILL") (codes "bad bot")
      (codes " CHANNEL #a NUMCHAN >=3") (codes "\"bad bot\" CHANNEL #a NUMCHAN >=3") wanted [] refl
      refl refl

reason_extract_lem_example :
    (reason_extract (codes "\"go away\" GLOB x") ≡ (some (codes "go away"), some (codes " GLOB x")))
    × (is_some (reason_extract (codes " \"go away")).0 ≡ false)
    × (reason_extract [] ≡ (some [], none))
unfolding any skip_spaces
reason_extract_lem_example =
    reason_extract_lem (codes "go away") (codes " GLOB x") (codes " \"go away") refl

read-print_criteria_example :
    read_criteria toy 3 (some (codes "CHANNEL #a NUMCHAN >=3"))
    ≡ ok (channel (some 7) ∷ numchan 4 3 ∷ [])
unfolding any atoi
read-print_criteria_example =
    read-print_criteria toy 3 (s_channel (codes "#a") ∷ s_numchan 4 (codes "3") ∷ []) (omega arith)
      refl

read_criteria-returns_example : is_out_of_fuel (read_criteria toy 23 (some criteria)) ≡ false
read_criteria-returns_example = read_criteria-returns toy 23 (some criteria) (omega arith)

trace_blank_example :
    let blank =
      os_cmd_trace toy 100 true none
        (pos 60)
        everyone
        (some (codes "print"))
        (some (codes "NickAge  "))
        [] in
    (is_faulty blank ≡ true)
    × (is_ok blank ≡ false)
    × (is_ok (
          os_cmd_trace toy 100 true none
            (pos 60)
            everyone
            (some (codes "print"))
            (some (codes "NickAge"))
            [])
        ≡ true)
unfolding action_of criterion_of strcasecmp_eq any skip_spaces
trace_blank_example =
    trace_blank toy 100 true none (pos 60) everyone (codes "print") (codes "NickAge") (codes " ")
      c_nickage [] refl refl refl refl refl refl
