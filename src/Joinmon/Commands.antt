-- ===== src/Joinmon/Commands.antt =====
-- The list of monitored patterns under the JOINMON command, and the report of a join.
use atheme_contrib_modules.Services.Keyed.{
  find, any_of_find, length-delete, find-some_of_any, delete_absent, find-append, find-none_of_any,
  any,
}
use atheme_contrib_modules.Prelude.{
  ℕ, Option, none, some, List, arith, ◌≡◌, ◌||◌, ◌&&◌, not, if◌then◌else◌, length, ◌++◌, ◌+◌, ◌∷◌,
  Bool, [], false,
}
use atheme_contrib_modules.Services.Text.{Text, codes}
use atheme_contrib_modules.Services.Registry.{
  Casemap, IsUnique, IsUnique-add, IsUnique-remove, listed-add, listed_congr, listed-remove_iff,
  remove, listed, is_named,
}
use atheme_contrib_modules.Joinmon.{
  Joinmon, Source, Verb, add, del, list, other, verb_of, perform, os_cmd_joinmon, entry_of, cmd_add,
  cmd_del, reason_of, watch_user_joins, Chanuser, log_del, sfree, has_joined, heap, static,
}

abbrev pub user_of : Joinmon → Text
user_of l = l.user

-- Whether or not an entry is found, the loop of DEL leaves the list without the first entry of that
-- name.
pub cmd_del-remove :
    (c : Casemap) (pattern : Text) (monlist : List Joinmon)
    → (cmd_del c pattern monlist).0 ≡ remove c user_of pattern monlist
unfolding cmd_del
cmd_del-remove c pattern monlist = ground (
  arith,
  any_of_find (is_named c user_of pattern) monlist,
  find-some_of_any (is_named c user_of pattern) monlist,
  delete_absent (is_named c user_of pattern) monlist,
)

module _ (c : Casemap) (si : Source) (now : ℕ) where
  -- The patterns that JOINMON keeps are distinct up to the case mapping: every call of the command,
  -- whatever its parameters and however it ends, keeps them so.
  pub os_cmd_joinmon-IsUnique :
      (action pattern reason : Option Text) (monlist : List Joinmon)
      → IsUnique c user_of monlist
      → IsUnique c user_of (os_cmd_joinmon c si now action pattern reason monlist).0
  unfolding os_cmd_joinmon
  os_cmd_joinmon-IsUnique none pattern reason monlist u = u
  os_cmd_joinmon-IsUnique (some a) pattern reason monlist u = by_verb (verb_of a) pattern
    where
      by_verb :
          (v : Verb) (p : Option Text) → IsUnique c user_of (perform c v si now p reason monlist).0
      by_verb add none = u
      by_verb del none = u
      by_verb list p = u
      by_verb other p = u
      by_verb add (some p) =
          ground (arith, IsUnique-add c user_of monlist (entry_of si now p reason) u)
      by_verb del (some p) = rw (cmd_del-remove c p monlist) (IsUnique-remove c user_of p monlist u)

  -- JOINMON ADD by a source that is logged in: afterwards exactly the given pattern and the patterns
  -- of before are monitored, and the list is as it was if the pattern was monitored already, and
  -- else has one new entry at its end.
  pub add-listed :
      (action pattern probe : Text) (reason : Option Text) (monlist : List Joinmon) {account : Text}
      → verb_of action ≡ add
      → si.smu ≡ some account
      → let after = (os_cmd_joinmon c si now (some action) (some pattern) reason monlist).0 in
        (listed c user_of probe after ≡ (listed c user_of probe monlist || c.same pattern probe))
        × (after ≡ (
            if listed c user_of pattern monlist
            then monlist
            else monlist ++ entry_of si now pattern reason ∷ []))
  unfolding os_cmd_joinmon
  add-listed action pattern probe reason monlist v s =
      rw (v, perform, s, cmd_add)
        (
          ground (
            arith,
            listed-add c user_of probe monlist (entry_of si now pattern reason),
            listed_congr c user_of pattern probe monlist,
          ),
          ground arith,
        )

  -- JOINMON DEL on a list of distinct patterns: afterwards the given pattern is not monitored, every
  -- other pattern is monitored exactly if it was, and the list is shorter by one entry exactly if
  -- the pattern was monitored.
  pub del-listed :
      (action pattern probe : Text) (reason : Option Text) (monlist : List Joinmon)
      → verb_of action ≡ del
      → IsUnique c user_of monlist
      → let after = (os_cmd_joinmon c si now (some action) (some pattern) reason monlist).0 in
        (listed c user_of probe after
          ≡ (listed c user_of probe monlist && not (c.same pattern probe)))
        × (length after + (if listed c user_of pattern monlist then 1 else 0) ≡ length monlist)
  unfolding os_cmd_joinmon
  del-listed action pattern probe reason monlist v u =
      rw (v, perform, cmd_del-remove c pattern monlist)
        (
          listed-remove_iff c user_of probe pattern monlist u,
          length-delete (is_named c user_of pattern) monlist,
        )

  -- A pattern that is added without a reason gets the text of the message catalogue for one, and
  -- a later DEL of that pattern calls sfree() on that text, which was never allocated.
  pub del_frees_static :
      (add_word del_word pattern : Text) (monlist : List Joinmon) {account : Text}
      → verb_of add_word ≡ add
      → verb_of del_word ≡ del
      → si.smu ≡ some account
      → listed c user_of pattern monlist ≡ false
      → let after = (os_cmd_joinmon c si now (some add_word) (some pattern) none monlist).0 in
        (os_cmd_joinmon c si now (some del_word) (some pattern) none after).1
        ≡ log_del pattern
          ∷ sfree (heap pattern)
          ∷ sfree (heap si.name)
          ∷ sfree (static (codes "None"))
          ∷ []
  unfolding os_cmd_joinmon reason_of find
  del_frees_static add_word del_word pattern monlist va vd s h =
      let e = entry_of si now pattern none in
      rw (va, vd, perform, s, cmd_add, h)
        (rw (find-append (is_named c user_of pattern) monlist (e ∷ []) h, cmd_del)
          (ground (arith, c.same_refl pattern)))

-- A join is reported for users of servers that have finished their burst only, once, for the first
-- pattern that matches the nickname, and not at all if no pattern matches.
pub watch_user_joins-first :
    (glob : Text → Text → Bool) (before rest : List Joinmon) (l : Joinmon) (cu : Chanuser)
    → any (λ m. glob m.user cu.nick) before ≡ false
    → (watch_user_joins glob (before ++ l ∷ rest) (some cu) ≡ (
        if cu.eob
        then if glob l.user cu.nick
          then has_joined cu.nick l.user cu.chan ∷ []
          else watch_user_joins glob rest (some cu)
        else []))
      × (watch_user_joins glob before (some cu) ≡ [])
unfolding watch_user_joins find
watch_user_joins-first glob before rest l cu h =
    let t = λ (m : Joinmon). glob m.user cu.nick in
    (
      rw (find-append t before (l ∷ rest) h, watch_user_joins) (ground arith),
      rw (find-none_of_any t before h, watch_user_joins) (ground arith),
    )
