-- ===== src/Trace/Commands.antt =====
-- What TRACE replies and does as a whole.
use atheme_contrib_modules.Services.Keyed.{any}
use atheme_contrib_modules.Services.Keyed.{keep, any}
use atheme_contrib_modules.Trace.Matches.{
  kills, seen, killable, each_user-print, each_user-kill, each_user-count,
}
use atheme_contrib_modules.Trace.Actions.{
  prepare_action, trace_kill_prepare, cleanup, action_of, a_print, a_kill, a_count, reason_extract,
  kill, matched_line, no_matches, log_trace, matches_count, Act,
}
use atheme_contrib_modules.Trace.Run.{
  os_cmd_trace, os_cmd_trace_run, finish, read_criteria, run_criteria,
}
use atheme_contrib_modules.Prelude.Int.{ℤ}
use atheme_contrib_modules.Services.Text.{Text}
use atheme_contrib_modules.Trace.{Network, User, Query, ok}
use atheme_contrib_modules.Prelude.{
  ℕ, List, Option, Bool, ◌≡◌, some, length, ◌+◌, map, ◌++◌, if◌then◌else◌, [], ◌∷◌, false, arith,
}

module _ (n : Network) (now : ℕ) (svs : Bool) (vhost : Option Text) (kline_time : ℤ) where
  -- PRINT shows exactly the users for whom all criteria hold and who are no clients of services, in
  -- the order of the user list, or says that there is none; COUNT tells how many they are; neither
  -- changes a k-line.
  pub trace_finds :
      (users : List User) (print_word count_word args : Text) (crit : List (Query n)) (k : n.K)
      → action_of print_word ≡ some a_print
      → action_of count_word ≡ some a_count
      → read_criteria n (length args + 1) (some args) ≡ ok crit
      → (os_cmd_trace n now svs vhost kline_time users (some print_word) (some args) k
          ≡ ok (
            k,
            map matched_line (keep (seen n now svs vhost crit) users)
                ++ (if any (seen n now svs vhost crit) users then [] else no_matches ∷ [])
                ++ log_trace print_word (some args) ∷ [],
          ))
        × (os_cmd_trace n now svs vhost kline_time users (some count_word) (some args) k
            ≡ ok (
              k,
              matches_count (length (keep (seen n now svs vhost crit) users))
                  ∷ log_trace count_word (some args)
                  ∷ [],
            ))
  unfolding os_cmd_trace os_cmd_trace_run run_criteria prepare_action finish cleanup
  trace_finds users print_word count_word args crit k p c r =
      let a : Act n = record { matched = false; matches = 0; klines = k } in
      (
        rw (p, os_cmd_trace)
            (rw (r, os_cmd_trace_run)
              (rw (each_user-print n now svs vhost crit users a) (ground arith))),
        rw (c, os_cmd_trace)
            (rw (r, os_cmd_trace_run)
              (rw (each_user-count n now svs vhost crit users a) (ground arith))),
      )

  kill_prepared :
      (args reason rest : Text)
      → reason_extract args ≡ (some reason, some rest)
      → trace_kill_prepare (some args) ≡ some (kill reason, some rest)
  unfolding trace_kill_prepare
  kill_prepared args reason rest e = ground (arith, e)

  -- KILL with a reason and criteria that are read kills exactly the users for whom all of them hold and
  -- who are neither clients of services nor operators of the network or of services, if OperServ is
  -- there.
  pub trace_kills :
      (users : List User) (word reason rest args : Text) (crit : List (Query n)) (k : n.K)
      → action_of word ≡ some a_kill
      → reason_extract args ≡ (some reason, some rest)
      → read_criteria n (length rest + 1) (some rest) ≡ ok crit
      → os_cmd_trace n now svs vhost kline_time users (some word) (some args) k
        ≡ ok (
          k,
          kills n now svs vhost reason (keep (killable n now svs vhost crit) users)
              ++ (if any (killable n now svs vhost crit) users then [] else no_matches ∷ [])
              ++ log_trace word (some rest) ∷ [],
        )
  unfolding os_cmd_trace os_cmd_trace_run run_criteria prepare_action finish cleanup
  trace_kills users word reason rest args crit k p e r =
      let a : Act n = record { matched = false; matches = 0; klines = k } in
      rw (p, os_cmd_trace)
        (rw (kill_prepared args reason rest e) (
          rw (r, os_cmd_trace_run)
            (rw (each_user-kill n now svs vhost reason crit users a) (ground arith))))
