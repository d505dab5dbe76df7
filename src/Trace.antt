-- ===== src/Trace.antt =====
-- src/os_trace.c: the command TRACE of OperServ. The criteria: how they are read from the parameters,
-- and which users they hold for. The cleanup functions of the criteria only free memory and are left
-- out. A fault is a call of the C library or a read through a null pointer.
pub mod Reasons
pub mod Actions
pub mod Run
pub mod Operators
pub mod Criteria
pub mod Blanks
pub mod Matches
pub mod Written
pub mod Commands
mod Tests
use atheme_contrib_modules.Services.Tokens.{next_word}
use atheme_contrib_modules.Prelude.Int.{ℤ, pos, sub_ℕ, ltb_ℤ, unsigned}
use atheme_contrib_modules.Services.Text.{Text, strcasecmp_eq, atoi, codes}
use atheme_contrib_modules.Prelude.{
  ℕ, List, Option, Bool, false, if◌then◌else◌, ◌≡◌, ◌∷◌, ◌==◌, ◌++◌, some, not, [], length, take,
  ◌≤◌, none, ◌&&◌, true,
}

-- What the module calls of atheme: regular expressions, servers, channels, masks and k-lines. `match`
-- and `match_ips` are true on a match. `K` is the state of the k-lines.
pub record Network : Type 1 where
  pub Regex : Type 0
  pub Channel : Type 0
  pub K : Type 0
  -- The pattern, what is left of the text, and the flags.
  pub regex_extract : Text → Option Text × Option Text × ℕ
  pub regex_create : Option Text → ℕ → Option Regex
  pub regex_match : Regex → Text → Bool
  pub server_find : Option Text → Option ℕ
  pub channel_find : Option Text → Option Channel
  pub chanuser_find : Channel → ℕ → Bool
  pub match : Text → Text → Bool
  pub match_ips : Text → Text → Bool
  pub kline_find : K → Text → Text → Bool
  pub kline_add : Text → Text → Text → ℤ → K → K
  -- What regex_extract() leaves is a part of the text.
  pub extract_shorter : (s r : Text) → (regex_extract s).1 ≡ some r → length r ≤ length s
  -- A k-line that was added is found.
  pub find-add :
      (user host reason : Text) (duration : ℤ) (k : K)
      → kline_find (kline_add user host reason duration k) user host ≡ true

-- What the module reads of a user_t, which `uid` stands for; `soper` is is_soper() of its account.
pub record User : Type 0 where
  pub uid : ℕ
  pub nick : Text
  pub user : Text
  pub host : Text
  pub gecos : Text
  pub server : ℕ
  pub ts : ℕ
  pub channels : ℕ
  pub account : Bool
  pub soper : Bool
  pub ircop : Bool
  pub internal : Bool

-- A trace_query_domain: the criterion and its values.
pub data Query (n : Network) : Type 0 where
  regexp : Option n.Regex → Query n
  server : Option ℕ → Query n
  glob : Option Text → Query n
  channel : Option n.Channel → Query n
  nickage : ℕ → ℤ → Query n
  numchan : ℕ → ℕ → Query n
  identified : Bool → Query n

pub data Result (A : Type 0) : Type 0 where
  faulty refused out_of_fuel : Result A
  ok : A → Result A

infixl 5 ◌>>=◌
abbrev pub ◌>>=◌ : {A B : Type 0} → Result A → (A → Result B) → Result B
faulty >>= f = faulty
refused >>= f = refused
out_of_fuel >>= f = out_of_fuel
ok a >>= f = f a

abbrev pub starts : ℕ → Text → Bool
starts d [] = false
starts d (c ∷ s) = c == d

abbrev pub tail : Text → Text
tail [] = []
tail (c ∷ s) = s

-- The comparison and what follows it: 0 is =, 1 is <, 2 is <=, 3 is > and 4 is >=.
pub read_comparison_operator : Text → ℕ → ℕ × Text
read_comparison_operator s default_comparison =
    if starts 60 s
    then if starts 61 (tail s) then (2, tail (tail s)) else (1, tail s)
    else if starts 62 s
    then if starts 61 (tail s) then (4, tail (tail s)) else (3, tail s)
    else if starts 61 s
    then (0, tail s)
    else (default_comparison, s)

pub data Criterion : Type 0 where
  c_regexp c_server c_glob c_channel c_nickage c_numchan c_identified : Criterion

-- trace_cmdtree, whose keys are found without regard to case.
pub criterion_of : Text → Option Criterion
criterion_of s =
    if strcasecmp_eq (codes "REGEXP") s
    then some c_regexp
    else if strcasecmp_eq (codes "SERVER") s
    then some c_server
    else if strcasecmp_eq (codes "GLOB") s
    then some c_glob
    else if strcasecmp_eq (codes "CHANNEL") s
    then some c_channel
    else if strcasecmp_eq (codes "NICKAGE") s
    then some c_nickage
    else if strcasecmp_eq (codes "NUMCHAN") s
    then some c_numchan
    else if strcasecmp_eq (codes "IDENTIFIED") s
    then some c_identified
    else none

-- The comparisons of nickage, an int, and of numchan, an unsigned int.
pub compares : ℕ → ℤ → ℤ → Bool
compares comparison a b =
    if comparison == 1
    then ltb_ℤ a b
    else if comparison == 2
    then not (ltb_ℤ b a)
    else if comparison == 3
    then ltb_ℤ b a
    else if comparison == 4
    then not (ltb_ℤ a b)
    else not (ltb_ℤ a b) && not (ltb_ℤ b a)

-- snprintf() into a buffer of 512 bytes.
abbrev pub usermask : User → Text
usermask u = u.nick ++ 33 ∷ u.user ++ 64 ∷ u.host

module _ (n : Network) where
  open n use {
    Regex, Channel, regex_extract, regex_create, regex_match, server_find, channel_find,
    chanuser_find, match,
  }

  unfoldable pub trace_regexp_prepare : Text → Result (Query n × Option Text)
  trace_regexp_prepare args =
      let (pattern, rest, flags) = regex_extract args in
      ok (regexp (regex_create pattern flags), rest)

  trace_regexp_exec : User → Option Regex → Bool
  trace_regexp_exec u none = false
  trace_regexp_exec u (some r) = regex_match r (take 511 (usermask u ++ 32 ∷ u.gecos))

  unfoldable pub trace_server_prepare : Text → Result (Query n × Option Text)
  trace_server_prepare args =
      let (name, rest) = next_word args in ok (server (server_find name), rest)

  trace_server_exec : User → Option ℕ → Bool
  trace_server_exec u none = false
  trace_server_exec u (some s) = s == u.server

  unfoldable pub trace_glob_prepare : Text → Result (Query n × Option Text)
  trace_glob_prepare args = let (pattern, rest) = next_word args in ok (glob pattern, rest)

  trace_glob_exec : User → Option Text → Bool
  trace_glob_exec u none = false
  trace_glob_exec u (some pattern) = match pattern (take 511 (usermask u))

  unfoldable pub trace_channel_prepare : Text → Result (Query n × Option Text)
  trace_channel_prepare args =
      let (name, rest) = next_word args in ok (channel (channel_find name), rest)

  trace_channel_exec : User → Option Channel → Bool
  trace_channel_exec u none = false
  trace_channel_exec u (some c) = chanuser_find c u.uid

  unfoldable pub trace_nickage_prepare : Text → Result (Query n × Option Text)
  unfolding read_comparison_operator atoi
  trace_nickage_prepare args =
      let (word, rest) = next_word args in
      elim word [
        | none ↦ faulty
        | some s ↦
            let (comparison, s') = read_comparison_operator s 2 in
            ok (nickage comparison (atoi s'), rest)
      ]

  -- `now` is CURRTIME.
  trace_nickage_exec : ℕ → User → ℕ → ℤ → Bool
  unfolding compares
  trace_nickage_exec now u comparison age = compares comparison (sub_ℕ now u.ts) age

  unfoldable pub trace_numchan_prepare : Text → Result (Query n × Option Text)
  unfolding read_comparison_operator atoi
  trace_numchan_prepare args =
      let (word, rest) = next_word args in
      elim word [
        | none ↦ faulty
        | some s ↦
            let (comparison, s') = read_comparison_operator s 0 in
            ok (numchan comparison (unsigned (atoi s')), rest)
      ]

  trace_numchan_exec : User → ℕ → ℕ → Bool
  unfolding compares
  trace_numchan_exec u comparison count = compares comparison (pos u.channels) (pos count)

  unfoldable pub trace_identified_prepare : Text → Result (Query n × Option Text)
  trace_identified_prepare args =
      let (word, rest) = next_word args in
      elim word [
        | none ↦ faulty
        | some s ↦
            if strcasecmp_eq s (codes "yes")
            then ok (identified true, rest)
            else if strcasecmp_eq s (codes "no")
            then ok (identified false, rest)
            else refused
      ]

  trace_identified_exec : User → Bool → Bool
  trace_identified_exec u b = if b then u.account else not u.account

  unfoldable pub prepare : Criterion → Text → Result (Query n × Option Text)
  unfolding trace_regexp_prepare trace_server_prepare trace_glob_prepare trace_channel_prepare
      trace_nickage_prepare trace_numchan_prepare trace_identified_prepare
  prepare c_regexp args = trace_regexp_prepare args
  prepare c_server args = trace_server_prepare args
  prepare c_glob args = trace_glob_prepare args
  prepare c_channel args = trace_channel_prepare args
  prepare c_nickage args = trace_nickage_prepare args
  prepare c_numchan args = trace_numchan_prepare args
  prepare c_identified args = trace_identified_prepare args

  pub exec : ℕ → User → Query n → Bool
  unfolding trace_regexp_exec trace_server_exec trace_glob_exec trace_channel_exec
      trace_nickage_exec trace_numchan_exec trace_identified_exec
  exec now u (regexp r) = trace_regexp_exec u r
  exec now u (server s) = trace_server_exec u s
  exec now u (glob p) = trace_glob_exec u p
  exec now u (channel c) = trace_channel_exec u c
  exec now u (nickage comparison age) = trace_nickage_exec now u comparison age
  exec now u (numchan comparison count) = trace_numchan_exec u comparison count
  exec now u (identified b) = trace_identified_exec u b
