-- ===== src/SaveChanmodes/Ends.antt =====
-- The fuel of the loop over the file.
use atheme_contrib_modules.Services.Metadata.{is_some}
use atheme_contrib_modules.Prelude.{
  ℕ, List, length, suc, Option, ◌≤◌, arith, Bool, ◌∷◌, [], ◌<◌, ◌≡◌, true, some, refl, ◌++◌,
}
use atheme_contrib_modules.Services.Text.{Text}
use atheme_contrib_modules.SaveChanmodes.{
  fgets, Event, load_lines, os_cmd_loadchanmodes, load_line, log_load, wallops_restore, restored,
  remember_restart,
}
use mathlib.Core.Option.{none}
use Prim.Native.Nat.{zero}
use atheme_contrib_modules.Services.Database.{◌>>=◌}

length-fgets : (n : ℕ) (s : Text) → length (fgets n s).1 ≤ length s
unfolding fgets
length-fgets zero s = omega arith
length-fgets (suc n) [] = omega arith
length-fgets (suc n) (c ∷ s) = ground (arith, length-fgets n s)

-- A line is read in each round.
fgets-shorter : (n c : ℕ) (s : Text) → length (fgets (suc n) (c ∷ s)).1 < suc (length s)
unfolding fgets
fgets-shorter n c s = ground (arith, length-fgets n s)

less_fuel : (a b fuel : ℕ) → a < suc b → suc b < suc fuel → a < fuel
less_fuel a b fuel h k = omega arith

lt_suc : (n : ℕ) → n < suc n
lt_suc n = omega arith

is_some-done :
    (m : Option (Option ℕ × List Event))
    → is_some m ≡ true
    → is_some (m >>= (λ r. some (r.1 ++ (restored ∷ remember_restart ∷ [])))) ≡ true
is_some-done none h = cc
is_some-done (some r) h = refl

module _ (strip : Text → Text) (find : List Event → Text → Option ℕ)
    (has_topic : List Event → ℕ → Bool) (topicts : List Event → ℕ → ℕ) where
  load_lines-ends :
      (fuel : ℕ) (file : Text) (st : Option ℕ × List Event)
      → length file < fuel
      → is_some (load_lines strip find has_topic topicts fuel file st) ≡ true
  unfolding load_lines
  load_lines-ends zero file st h = elim h [ ]
  load_lines-ends (suc fuel) [] st h = refl
  load_lines-ends (suc fuel) (c ∷ file) st h =
      load_lines-ends fuel (fgets 2047 (c ∷ file)).1
        (load_line strip find has_topic topicts (fgets 2047 (c ∷ file)).0 st)
        (less_fuel _ (length file) fuel (fgets-shorter 2046 c file) h)

  -- LOADCHANMODES comes to the end of any file.
  pub os_cmd_loadchanmodes-ends :
      (file : Option Text) → is_some (os_cmd_loadchanmodes strip find has_topic topicts file) ≡ true
  unfolding os_cmd_loadchanmodes
  os_cmd_loadchanmodes-ends none = refl
  os_cmd_loadchanmodes-ends (some file) =
      is_some-done (load_lines strip find has_topic topicts (suc (length file)) file _) (
        load_lines-ends (suc (length file)) file (none, log_load ∷ wallops_restore ∷ [])
          (lt_suc (length file)))
