-- ===== src/Trace/Matches.antt =====
-- Whom the actions reach.
use atheme_contrib_modules.Trace.Actions.{
  exec_action, is_spared, Event, trace_print_exec, trace_count_exec, trace_kill_exec, Act,
  kill_user, print, count, killed, kill, matched_line,
}
use atheme_contrib_modules.Services.Keyed.{any, keep}
use atheme_contrib_modules.Trace.Run.{doit, each_user}
use atheme_contrib_modules.Services.Text.{Text}
use atheme_contrib_modules.Trace.{Network, Query, User, exec}
use atheme_contrib_modules.Prelude.{
  ℕ, List, Option, Bool, not, ◌&&◌, ◌≡◌, ◌∷◌, arith, [], ◌||◌, refl, map, ◌+◌, true, length,
  Bool-cases, if◌then◌else◌, inl, inr,
}

module _ (n : Network) (now : ℕ) (svs : Bool) (vhost : Option Text) where
  -- All criteria hold for the user.
  abbrev pub satisfies : List (Query n) → User → Bool
  satisfies crit u = not (any (λ q. not (exec n now u q)) crit)

  doit-satisfies : (u : User) (crit : List (Query n)) → doit n now u crit ≡ satisfies crit u
  unfolding doit any
  doit-satisfies u [] = refl
  doit-satisfies u (q ∷ crit) = ground (arith, doit-satisfies u crit)

  -- The users that PRINT and COUNT reach, and those that KILL does.
  abbrev pub seen : List (Query n) → User → Bool
  seen crit u = satisfies crit u && not u.internal

  abbrev pub killable : List (Query n) → User → Bool
  killable crit u = satisfies crit u && not (is_spared n u) && svs

  pub each_user-print :
      (crit : List (Query n)) (users : List User) (a : Act n)
      → each_user n now svs vhost print crit users a ≡ (
        record a { matched = a.matched || any (seen crit) users },
        map matched_line (keep (seen crit) users),
      )
  unfolding each_user exec_action trace_print_exec any keep
  each_user-print crit [] a = ground arith
  each_user-print crit (u ∷ users) a =
      let d = doit-satisfies u crit in
      ground (
        arith,
        d,
        each_user-print crit users a,
        each_user-print crit users (record a { matched = true }),
      )

  pub each_user-count :
      (crit : List (Query n)) (users : List User) (a : Act n)
      → each_user n now svs vhost count crit users a ≡ (
        record a {
          matched = a.matched || any (seen crit) users;
          matches = a.matches + length (keep (seen crit) users);
        },
        [],
      )
  unfolding each_user exec_action trace_count_exec any keep
  each_user-count crit [] a = ground arith
  each_user-count crit (u ∷ users) a =
      let d = doit-satisfies u crit in
      ground (
        arith,
        d,
        each_user-count crit users a,
        each_user-count crit users (record a { matched = true; matches = a.matches + 1 }),
      )

  abbrev pub kills : Text → List User → List Event
  kills reason [] = []
  kills reason (u ∷ l) = kill_user u.uid reason ∷ killed u.nick ∷ kills reason l

  kill-step :
      (reason : Text) (crit : List (Query n)) (u : User) (a : Act n)
      → (if doit n now u crit then exec_action n svs vhost (kill reason) u a else (a, [])) ≡ (
          if killable crit u
          then (record a { matched = true }, kill_user u.uid reason ∷ killed u.nick ∷ [])
          else (a, []))
  unfolding exec_action trace_kill_exec
  kill-step reason crit u a = let d = doit-satisfies u crit in ground (arith, d)

  pub each_user-kill :
      (reason : Text) (crit : List (Query n)) (users : List User) (a : Act n)
      → each_user n now svs vhost (kill reason) crit users a ≡ (
        record a { matched = a.matched || any (killable crit) users },
        kills reason (keep (killable crit) users),
      )
  unfolding each_user any keep
  each_user-kill reason crit [] a = ground arith
  each_user-kill reason crit (u ∷ users) a = elim (Bool-cases (killable crit u)) [
    | inl e ↦
        rw (kill-step reason crit u a) (
          rw e (rw (each_user-kill reason crit users (record a { matched = true })) (ground arith)))
    | inr e ↦ rw (kill-step reason crit u a) (rw e (rw (each_user-kill reason crit users a) refl))
  ]
