-- ===== src/Joinmon/Monitored.antt =====
-- JOINMON refines a function from patterns to entries.
use atheme_contrib_modules.Joinmon.Commands.{user_of, cmd_del-remove, os_cmd_joinmon-IsUnique}
use atheme_contrib_modules.Services.Metadata.{is_some}
use atheme_contrib_modules.Services.Lookup.{
  lookup, is_some-lookup, update, lookup-remove, lookup-add,
}
use atheme_contrib_modules.Services.Text.{Text}
use atheme_contrib_modules.Services.Registry.{Casemap, IsUnique, listed}
use atheme_contrib_modules.Joinmon.{
  Source, Joinmon, cmd_add, perform, os_cmd_joinmon, Verb, with_pattern, add, cmd_list, entry_of,
  verb_of, list, del, other,
}
use atheme_contrib_modules.Prelude.{
  none, some, ℕ, List, Option, ◌∷◌, ◌≡◌, [], some, if◌then◌else◌, ◌&&◌, not, Option-cases, inl, ◌∙◌,
  inr, ap, refl, Bool-cases,
}

-- A call of the command: its source, the time and its parameters.
pub record Call : Type 0 where
  pub si : Source
  pub now : ℕ
  pub action : Option Text
  pub pattern : Option Text
  pub reason : Option Text

module _ (c : Casemap) where
  abbrev pub monitored : List Joinmon → Text → Option Joinmon
  monitored monlist = lookup c user_of monlist

  abbrev pub run : List Call → List Joinmon → List Joinmon
  run [] monlist = monlist
  run (k ∷ calls) monlist =
      run calls (os_cmd_joinmon c k.si k.now k.action k.pattern k.reason monlist).0

  -- What a call does to a function from patterns to entries.
  abbrev pub effect :
      Source
      → ℕ
      → Option Text
      → Verb
      → Option Text
      → (Text → Option Joinmon)
      → Text
      → Option Joinmon
  effect si now reason add (some p) f =
      if is_some si.smu && not (is_some (f p))
      then update c user_of p (some (entry_of si now p reason)) f
      else f
  effect si now reason add none f = f
  effect si now reason del (some p) f = update c user_of p none f
  effect si now reason del none f = f
  effect si now reason list p f = f
  effect si now reason other p f = f

  abbrev pub effect_of : Call → (Text → Option Joinmon) → Text → Option Joinmon
  effect_of k f = elim k.action [
    | none ↦ f
    | some a ↦ effect k.si k.now k.reason (verb_of a) k.pattern f
  ]

  abbrev pub replay : List Call → (Text → Option Joinmon) → Text → Option Joinmon
  replay [] f = f
  replay (k ∷ calls) f = replay calls (effect_of k f)

  add_refines :
      (si : Source) (now : ℕ) (p : Text) (reason : Option Text) (monlist : List Joinmon)
      → monitored (cmd_add c si now p reason monlist).0
        ≡ effect si now reason add (some p) (monitored monlist)
  unfolding cmd_add
  add_refines si now p reason monlist =
      let found = is_some-lookup c user_of p monlist in
      elim (Option-cases si.smu) [
        | inl e ↦ rw (e, cmd_add) refl
        | inr (account, e) ↦ elim (Bool-cases (listed c user_of p monlist)) [
          | inl h ↦ rw (e, cmd_add) (rw found (rw h refl))
          | inr h ↦
              rw (e, cmd_add)
                (rw found (rw h (lookup-add c user_of monlist (entry_of si now p reason) h)))
        ]
      ]

  perform_refines :
      (v : Verb) (si : Source) (now : ℕ) (p reason : Option Text) (monlist : List Joinmon)
      → IsUnique c user_of monlist
      → monitored (perform c v si now p reason monlist).0
        ≡ effect si now reason v p (monitored monlist)
  unfolding perform with_pattern cmd_list
  perform_refines add si now (some p) reason monlist u = add_refines si now p reason monlist
  perform_refines add si now none reason monlist u = refl
  perform_refines del si now (some p) reason monlist u =
      rw (cmd_del-remove c p monlist) (lookup-remove c user_of p monlist u)
  perform_refines del si now none reason monlist u = refl
  perform_refines list si now p reason monlist u = refl
  perform_refines other si now p reason monlist u = refl

  call_refines :
      (k : Call) (monlist : List Joinmon)
      → IsUnique c user_of monlist
      → monitored (os_cmd_joinmon c k.si k.now k.action k.pattern k.reason monlist).0
        ≡ effect_of k (monitored monlist)
  unfolding os_cmd_joinmon
  call_refines k monlist u = elim (Option-cases k.action) [
    | inl e ↦ rw (e, os_cmd_joinmon) refl
    | inr (a, e) ↦
        rw (e, os_cmd_joinmon) (perform_refines (verb_of a) k.si k.now k.pattern k.reason monlist u)
  ]

  -- Any sequence of calls of JOINMON does to the entry that is found for a pattern what the same calls
  -- do to a function from patterns to entries: ADD sets it if the source is logged in and the pattern
  -- is not monitored, DEL clears it, and every other call leaves it.
  pub joinmon_refines :
      (calls : List Call) (monlist : List Joinmon)
      → IsUnique c user_of monlist
      → monitored (run calls monlist) ≡ replay calls (monitored monlist)
  joinmon_refines [] monlist u = refl
  joinmon_refines (k ∷ calls) monlist u =
      joinmon_refines calls _
        (os_cmd_joinmon-IsUnique c k.si k.now k.action k.pattern k.reason monlist u)
      ∙ ap (replay calls) (call_refines k monlist u)
