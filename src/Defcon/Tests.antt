-- ===== src/Defcon/Tests.antt =====
-- The theorems about DEFCON at concrete inputs.
use atheme_contrib_modules.Services.{badparams}
use atheme_contrib_modules.Defcon.Ignores.{not_everyone}
use atheme_contrib_modules.Defcon.Timer.{
  is_arming, is_destroying, fired_timer_stays, is_destroying_other,
}
use atheme_contrib_modules.Prelude.Int.{pos}
use atheme_contrib_modules.Services.Text.{atoi, codes}
use atheme_contrib_modules.Defcon.Levels.{
  IsSound, Reach-IsSound, os_cmd_defcon_refuses, next, here, os_cmd_defcon_sets, command, expire,
  is_none,
}
use atheme_contrib_modules.Defcon.{
  Svsignores, Ignore, Defcon, User, is_everyone, os_cmd_defcon, defcon_timeoutfunc, everyone,
  initial, command_fail, defcon_nouserreg,
}
use atheme_contrib_modules.Services.Keyed.{any}
use atheme_contrib_modules.Prelude.{
  ℕ, List, ◌∷◌, length, Bool, some, [], false, ◌++◌, ◌≡◌, zero, ap, true, ◌||◌, ◌&&◌, refl, none,
}
use Prim.Native.Nat.{ℕ, suc}

abbrev drop_at : ℕ → List Ignore → List Ignore
drop_at i [] = []
drop_at zero (x ∷ xs) = xs
drop_at (suc i) (x ∷ xs) = x ∷ drop_at i xs

drop_at_middle :
    (kept : List Ignore) (e : Ignore) (rest : List Ignore)
    → drop_at (length kept) (kept ++ e ∷ rest) ≡ kept ++ rest
drop_at_middle [] e rest = refl
drop_at_middle (x ∷ kept) e rest = ap (◌∷◌ x) (drop_at_middle kept e rest)

add_front : (p : Ignore → Bool) (e : Ignore) (l : List Ignore) → any p (e ∷ l) ≡ (p e || any p l)
unfolding any
add_front p e l = refl

abbrev svs : Svsignores
svs = record {
  svsignore_add = λ e l. e ∷ l;
  svsignore_delete = drop_at;
  any-add = add_front;
  delete-middle = drop_at_middle;
}

abbrev spammer : Ignore
spammer = record { mask = codes "*@spam"; setby = codes "Admin"; settime = 5 }

abbrev locked : Defcon
locked = record { level = pos 1; defcon_timer = some 7; ignores = everyone 1 ∷ spammer ∷ [] }

abbrev set_one : Defcon
set_one =
    (os_cmd_defcon svs 3 900 7 (codes "#a" ∷ []) (some (codes "1")) (initial (spammer ∷ []))).0

Reach-IsSound_example : IsSound (defcon_timeoutfunc svs 4 [] set_one).0
Reach-IsSound_example =
    Reach-IsSound svs (spammer ∷ [])
      (next (next here (command 3 900 7 (codes "#a" ∷ []) (some (codes "1")))) (expire 4 []))

os_cmd_defcon_sets_example :
    let after = (os_cmd_defcon svs 3 900 8 (codes "#a" ∷ []) (some (codes " 2")) locked).0 in
    (after.level ≡ pos 2)
    × (any is_everyone after.ignores ≡ true)
    × (any (λ e. not_everyone e && true) after.ignores
        ≡ any (λ e. not_everyone e && true) locked.ignores)
unfolding atoi
os_cmd_defcon_sets_example =
    os_cmd_defcon_sets svs 3 900 8 (codes "#a" ∷ []) (codes " 2") locked (λ _. true) refl

os_cmd_defcon_refuses_example :
    let set = (os_cmd_defcon svs 3 900 8 [] (some (codes "2")) (initial (spammer ∷ []))).0 in
    let (refused, replies) = os_cmd_defcon svs 4 900 9 [] (some (codes "-1")) set in
    let normal = (os_cmd_defcon svs 4 900 9 [] (some (codes "5")) set).0 in
    (replies ≡ command_fail badparams ∷ [])
    × (refused.level ≡ pos 5)
    × (defcon_nouserreg refused (some 0) ≡ (some 0, []))
    × (any is_everyone refused.ignores ≡ true)
    × (refused.defcon_timer ≡ set.defcon_timer)
    × (is_none refused.defcon_timer ≡ false)
    × (any is_everyone normal.ignores ≡ false)
    × (normal.defcon_timer ≡ none)
unfolding atoi
os_cmd_defcon_refuses_example =
    os_cmd_defcon_refuses svs 3 4 900 8 9 [] (codes "2") (codes "-1") (initial (spammer ∷ [])) refl
      refl

fired_timer_stays_example :
    let fired = (defcon_timeoutfunc svs 4 [] locked).0 in
    let again = os_cmd_defcon svs 5 900 8 [] (some (codes "2")) fired in
    (fired.level ≡ pos 5)
    × (any is_arming again.1 ≡ false)
    × (again.0.defcon_timer ≡ some 7)
    × (any (is_destroying 7) again.1 ≡ false)
    × (any (is_destroying_other 7) again.1 ≡ false)
unfolding atoi
fired_timer_stays_example = fired_timer_stays svs 4 5 900 8 7 [] (codes "2") locked refl refl

abbrev visitor : User
visitor = record { user = codes "u"; host = codes "h"; internal = false; klinesent = false }
