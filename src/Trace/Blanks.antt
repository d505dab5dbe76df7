-- ===== src/Trace/Blanks.antt =====
-- A criterion that has only spaces for its operand.
use atheme_contrib_modules.Trace.Criteria.{is_out_of_fuel}
use atheme_contrib_modules.Trace.Actions.{action_of, prepare_action, a_print}
use atheme_contrib_modules.Prelude.Int.{ℤ}
use atheme_contrib_modules.Services.Tokens.{
  next_word, word_of, skip_spaces, after_word, is_word, nonempty, next_word-append, next_word-last,
}
use atheme_contrib_modules.Services.Text.{Text}
use atheme_contrib_modules.Trace.Run.{
  read_criteria, os_cmd_trace, os_cmd_trace_run, run_criteria, finish,
}
use atheme_contrib_modules.Prelude.{
  Bool, ℕ, true, false, ◌<◌, ◌≡◌, some, [], suc, ◌∙◌, ◌∷◌, arith, refl, ap, Option, length, List,
  ◌+◌, ◌++◌, not, ◌&&◌, Bool-cases, inl, sym, inr,
}
use Prim.Native.Nat.{zero}
use mathlib.Core.Option.{none}
use atheme_contrib_modules.Trace.{
  ◌>>=◌, Result, Criterion, Network, prepare, ok, trace_nickage_prepare, trace_server_prepare,
  trace_numchan_prepare, trace_glob_prepare, faulty, c_nickage, c_regexp, trace_identified_prepare,
  trace_channel_prepare, c_numchan, c_identified, criterion_of, c_server, Query, c_glob, server,
  c_channel, glob, channel, refused, User, out_of_fuel,
}

abbrev pub is_faulty : {A : Type 0} → Result A → Bool
is_faulty faulty = true
is_faulty _ = false

abbrev pub is_ok : {A : Type 0} → Result A → Bool
is_ok (ok _) = true
is_ok _ = false

-- The criteria that read a number or a truth value.
abbrev pub reads_value : Criterion → Bool
reads_value c_nickage = true
reads_value c_numchan = true
reads_value c_identified = true
reads_value _ = false

abbrev pub is_regexp : Criterion → Bool
is_regexp c_regexp = true
is_regexp _ = false

word_fuel : (name : Text) → is_word name ≡ true → 1 < length name + 1
word_fuel [] w = cc
word_fuel (c ∷ name) w = omega arith

more_fuel : (name b : Text) → is_word name ≡ true → 1 < length (name ++ 32 ∷ b) + 1
more_fuel [] b w = cc
more_fuel (c ∷ name) b w = omega arith

module _ (n : Network) where
  prepare-faulty :
      (c : Criterion) (b : Text)
      → reads_value c ≡ true
      → skip_spaces b ≡ []
      → prepare n c b ≡ faulty
  unfolding prepare trace_nickage_prepare trace_numchan_prepare trace_identified_prepare next_word
      word_of
  prepare-faulty c_nickage b h e = rw (e, trace_nickage_prepare) refl
  prepare-faulty c_numchan b h e = rw (e, trace_numchan_prepare) refl
  prepare-faulty c_identified b h e = rw (e, trace_identified_prepare) refl
  prepare-faulty c_regexp b h e = cc
  prepare-faulty c_server b h e = cc
  prepare-faulty c_glob b h e = cc
  prepare-faulty c_channel b h e = cc

  prepare-nameless :
      (c : Criterion) (b : Text)
      → reads_value c ≡ false
      → is_regexp c ≡ false
      → skip_spaces b ≡ []
      → (q : Query n) × (prepare n c b ≡ ok (q, none))
  unfolding prepare trace_server_prepare trace_glob_prepare trace_channel_prepare next_word word_of
      after_word
  prepare-nameless c_server b h r e = (server (n.server_find none), rw e refl)
  prepare-nameless c_glob b h r e = (glob none, rw e refl)
  prepare-nameless c_channel b h r e = (channel (n.channel_find none), rw e refl)
  prepare-nameless c_nickage b h r e = cc
  prepare-nameless c_numchan b h r e = cc
  prepare-nameless c_identified b h r e = cc
  prepare-nameless c_regexp b h r e = cc

  -- Reading one criterion, whose operands are there.
  read_criteria-step :
      (fuel : ℕ) (args name operands : Text) (c : Criterion)
      → next_word args ≡ (some name, some operands)
      → criterion_of name ≡ some c
      → read_criteria n (suc fuel) (some args)
        ≡ (do (q, left) ← prepare n c operands; l ← read_criteria n fuel left; ok (q ∷ l))
  unfolding read_criteria
  read_criteria-step fuel args name operands c e f =
      rw (ap (λ w. w.0) e, read_criteria) (rw f (rw (ap (λ w. w.1) e) refl))

  read_criteria-value :
      (fuel : ℕ) (args name b : Text) (c : Criterion)
      → 1 < fuel
      → next_word args ≡ (some name, some b)
      → criterion_of name ≡ some c
      → reads_value c ≡ true
      → skip_spaces b ≡ []
      → read_criteria n fuel (some args) ≡ faulty
  read_criteria-value zero args name b c l e f r h = elim l [ ]
  read_criteria-value (suc fuel) args name b c l e f r h =
      read_criteria-step fuel args name b c e f ∙ rw (prepare-faulty c b r h) refl

  read_criteria-nameless :
      (fuel : ℕ) (args name b : Text) (c : Criterion)
      → 1 < fuel
      → next_word args ≡ (some name, some b)
      → criterion_of name ≡ some c
      → reads_value c ≡ false
      → is_regexp c ≡ false
      → skip_spaces b ≡ []
      → (q : Query n) × (read_criteria n fuel (some args) ≡ ok (q ∷ []))
  unfolding read_criteria
  read_criteria-nameless zero args name b c l e f r x h = elim l [ ]
  read_criteria-nameless (suc zero) args name b c l e f r x h = absurd (omega (arith, l))
  read_criteria-nameless (suc (suc fuel)) args name b c l e f r x h =
      let (q, p) = prepare-nameless c b r x h in
      (q, read_criteria-step (suc fuel) args name b c e f ∙ rw p refl)

  read_criteria-bare :
      (fuel : ℕ) (args name : Text) (c : Criterion)
      → 1 < fuel
      → next_word args ≡ (some name, none)
      → criterion_of name ≡ some c
      → read_criteria n fuel (some args) ≡ refused
  unfolding read_criteria
  read_criteria-bare zero args name c l e f = elim l [ ]
  read_criteria-bare (suc fuel) args name c l e f =
      rw (ap (λ w. w.0) e, read_criteria) (rw f (rw (ap (λ w. w.1) e) refl))

  module _ (now : ℕ) (svs : Bool) (vhost : Option Text) (kline_time : ℤ) where
    -- PRINT ends just as the reading of its criteria does.
    print-reading :
        (users : List User) (word args : Text) (k : n.K) (r : Result (List (Query n)))
        → action_of word ≡ some a_print
        → read_criteria n (length args + 1) (some args) ≡ r
        → (is_faulty (os_cmd_trace n now svs vhost kline_time users (some word) (some args) k)
            ≡ is_faulty r)
          × (is_ok (os_cmd_trace n now svs vhost kline_time users (some word) (some args) k)
              ≡ (not (is_faulty r) && not (is_out_of_fuel r)))
    unfolding os_cmd_trace os_cmd_trace_run run_criteria prepare_action finish
    print-reading users word args k faulty p e = (
      rw (p, os_cmd_trace) (rw (e, os_cmd_trace_run) refl),
      rw (p, os_cmd_trace) (rw (e, os_cmd_trace_run) refl),
    )
    print-reading users word args k refused p e = (
      rw (p, os_cmd_trace) (rw (e, os_cmd_trace_run) refl),
      rw (p, os_cmd_trace) (rw (e, os_cmd_trace_run) refl),
    )
    print-reading users word args k out_of_fuel p e = (
      rw (p, os_cmd_trace) (rw (e, os_cmd_trace_run) refl),
      rw (p, os_cmd_trace) (rw (e, os_cmd_trace_run) refl),
    )
    print-reading users word args k (ok crit) p e = (
      rw (p, os_cmd_trace) (rw (e, os_cmd_trace_run) refl),
      rw (p, os_cmd_trace) (rw (e, os_cmd_trace_run) refl),
    )

    -- TRACE PRINT with one criterion, not REGEXP, whose name is followed by a space and then by one or
    -- more spaces, follows a null pointer exactly if the criterion is NICKAGE, NUMCHAN or IDENTIFIED, and
    -- else ends; and with the bare name of the criterion it ends for each of them.
    pub trace_blank :
        (users : List User) (word name b : Text) (c : Criterion) (k : n.K)
        → action_of word ≡ some a_print
        → criterion_of name ≡ some c
        → is_regexp c ≡ false
        → is_word name ≡ true
        → nonempty b ≡ some b
        → skip_spaces b ≡ []
        → let blank =
            os_cmd_trace n now svs vhost kline_time users (some word) (some (name ++ 32 ∷ b)) k in
          (is_faulty blank ≡ reads_value c)
          × (is_ok blank ≡ not (reads_value c))
          × (is_ok (os_cmd_trace n now svs vhost kline_time users (some word) (some name) k) ≡ true)
    trace_blank users word name b c k p f x w e s =
        let args = name ++ 32 ∷ b in
        let read = next_word-append name b w ∙ ap (λ r. (some name, r)) e in
        let long = more_fuel name b w in
        let bare = print-reading users word name k refused p (
          read_criteria-bare (length name + 1) name name c (word_fuel name w)
            (next_word-last name w) f) in
        elim (Bool-cases (reads_value c)) [
          | inl v ↦
              let (faults, ends) =
                print-reading users word args k faulty p
                  (read_criteria-value (length args + 1) args name b c long read f v s) in
              (faults ∙ sym v, ends ∙ ap not (sym v), bare.1)
          | inr v ↦
              let (q, r) =
                read_criteria-nameless (length args + 1) args name b c long read f v x s in
              let (faults, ends) = print-reading users word args k (ok (q ∷ [])) p r in
              (faults ∙ sym v, ends ∙ ap not (sym v), bare.1)
        ]
