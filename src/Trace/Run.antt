-- ===== src/Trace/Run.antt =====
-- os_cmd_trace_run() and os_cmd_trace() of src/os_trace.c. Reading the criteria is on fuel; what is
-- left of the parameters gets shorter with each criterion.
use atheme_contrib_modules.Trace.{◌>>=◌}
use Prim.Native.Nat.{zero}
use mathlib.Core.Option.{none}
use atheme_contrib_modules.Prelude.Int.{ℤ}
use atheme_contrib_modules.Services.{Fault, badparams, needmoreparams, nosuch_target}
use atheme_contrib_modules.Trace.Actions.{
  exec_action, cleanup, action_of, Event, Action, prepare_action, command_fail, Act, log_trace,
}
use atheme_contrib_modules.Services.Text.{Text}
use atheme_contrib_modules.Services.Tokens.{next_word}
use atheme_contrib_modules.Trace.{
  Network, exec, faulty, criterion_of, User, prepare, Query, Result, out_of_fuel, ok, refused,
}
use atheme_contrib_modules.Prelude.{
  ℕ, List, Option, Bool, true, ◌∷◌, suc, [], false, if◌then◌else◌, ◌++◌, some, not, length, ◌+◌,
  none, zero,
}

module _ (n : Network) where
  -- The loop over the criteria. strtok() has nothing left once args is a null pointer.
  unfoldable pub read_criteria : ℕ → Option Text → Result (List (Query n))
  unfolding criterion_of prepare
  read_criteria zero args = out_of_fuel
  read_criteria (suc fuel) none = ok []
  read_criteria (suc fuel) (some args) =
      let (cmd, rest) = next_word args in
      elim cmd [
        | none ↦ ok []
        | some name ↦ elim (criterion_of name) [
          | none ↦ refused
          | some cons ↦ elim rest [
            | none ↦ refused
            | some operands ↦ do
              (q, left) ← prepare n cons operands
              l ← read_criteria fuel left
              ok (q ∷ l)
          ]
        ]
      ]

  -- The loop over the criteria of one user.
  unfoldable pub doit : ℕ → User → List (Query n) → Bool
  unfolding exec
  doit now u [] = true
  doit now u (q ∷ crit) = if not (exec n now u q) then false else doit now u crit

  -- The loop over the users.
  unfoldable pub each_user :
      ℕ → Bool → Option Text → Action → List (Query n) → List User → Act n → Act n × List Event
  unfolding doit exec_action
  each_user now svs vhost action crit [] a = (a, [])
  each_user now svs vhost action crit (u ∷ users) a =
      let (a₁, events) = if doit now u crit then exec_action n svs vhost action u a else (a, []) in
      let (a₂, later) = each_user now svs vhost action crit users a₁ in (a₂, events ++ later)

  abbrev pub refusal : Fault → List Event
  refusal f = command_fail f ∷ command_fail f ∷ []

  -- What is done with the criteria.
  unfoldable pub run_criteria :
      ℕ
      → Bool
      → Option Text
      → Action
      → List User
      → Act n
      → Result (List (Query n))
      → Result (Bool × Act n × List Event)
  unfolding each_user
  run_criteria now svs vhost action users a refused = ok (false, a, command_fail nosuch_target ∷ [])
  run_criteria now svs vhost action users a faulty = faulty
  run_criteria now svs vhost action users a out_of_fuel = out_of_fuel
  run_criteria now svs vhost action users a (ok crit) =
      let (a', events) = each_user now svs vhost action crit users a in ok (true, a', events)

  unfoldable pub os_cmd_trace_run :
      ℕ
      → Bool
      → Option Text
      → Action
      → List User
      → Option Text
      → Act n
      → Result (Bool × Act n × List Event)
  unfolding read_criteria run_criteria
  os_cmd_trace_run now svs vhost action users none a = ok (false, a, refusal needmoreparams)
  os_cmd_trace_run now svs vhost action users (some args) a =
      run_criteria now svs vhost action users a (read_criteria (length args + 1) (some args))

  -- The end of os_cmd_trace(), once the action is there.
  unfoldable pub finish :
      Text → Option Text → Action → Result (Bool × Act n × List Event) → Result (n.K × List Event)
  unfolding cleanup
  finish name params action faulty = faulty
  finish name params action refused = refused
  finish name params action out_of_fuel = out_of_fuel
  finish name params action (ok (succeeded, a, events)) = ok (
    a.klines,
    events
        ++ cleanup n action a succeeded
        ++ (if succeeded then log_trace name params ∷ [] else []),
  )

  -- The parameters, the users, and the state of the k-lines; `refused` is never returned.
  unfoldable pub os_cmd_trace :
      ℕ
      → Bool
      → Option Text
      → ℤ
      → List User
      → Option Text
      → Option Text
      → n.K
      → Result (n.K × List Event)
  unfolding action_of prepare_action os_cmd_trace_run finish
  os_cmd_trace now svs vhost kline_time users none args k = ok (k, refusal badparams)
  os_cmd_trace now svs vhost kline_time users (some name) args k = elim (action_of name) [
    | none ↦ ok (k, refusal badparams)
    | some cons ↦ elim (prepare_action kline_time cons args) [
      | none ↦ ok (k, command_fail nosuch_target ∷ [])
      | some (action, rest) ↦ finish name rest action (
          os_cmd_trace_run now svs vhost action users rest
            (record { matched = false; matches = 0; klines = k }))
    ]
  ]
