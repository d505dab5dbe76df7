-- ===== src/Defcon/Timer.antt =====
-- The timer that ends a DEFCON level, and the hooks that a level closes.
use atheme_contrib_modules.Defcon.Levels.{in_range}
use atheme_contrib_modules.Services.Text.{Text, codes, atoi}
use atheme_contrib_modules.Prelude.Int.{ℤ, pos}
use atheme_contrib_modules.Services.Keyed.{any, any-append}
use atheme_contrib_modules.Prelude.{
  Bool, true, ◌≡◌, false, ℕ, List, ◌∷◌, arith, Bool-cases, some, inl, inr, ◌+◌, if◌then◌else◌, none,
  not, [], refl, Option, ==_iff, ◌==◌,
}
use atheme_contrib_modules.Defcon.{
  Event, Svsignores, defcon_timeoutfunc, timer_add_once, timer_destroy, kline_add, ignore_added,
  delete_everyone, defcon_svsignore, defcon_forcechanmodes, os_cmd_defcon, set_level, arm_timer,
  ignore_removed, Ignore, channel_mode_va, Defcon, is_everyone, below, level_set, wallops,
  logcommand,
}

abbrev pub is_arming : Event → Bool
is_arming (timer_add_once timeout handle) = true
is_arming _ = false

abbrev pub is_handle : ℕ → Option ℕ → Bool
is_handle old none = false
is_handle old (some handle) = handle == old

-- The destruction of that timer, and of what is not that timer.
abbrev pub is_destroying : ℕ → Event → Bool
is_destroying old (timer_destroy timer) = is_handle old timer
is_destroying old _ = false

abbrev pub is_destroying_other : ℕ → Event → Bool
is_destroying_other old (timer_destroy timer) = not (is_handle old timer)
is_destroying_other old _ = false

abbrev pub is_kline : Event → Bool
is_kline (kline_add user host duration) = true
is_kline _ = false

-- A test that fails for the events of the ignores and of the channel modes.
record IsOther (p : Event → Bool) : Type 0 where
  added : p ignore_added ≡ false
  removed : p ignore_removed ≡ false
  mode : (ch m : Text) → p (channel_mode_va ch m) ≡ false
  said : (n : ℤ) → any p (level_set n ∷ wallops n ∷ logcommand n ∷ []) ≡ false

module _ (svs : Svsignores) (p : Event → Bool) (o : IsOther p) where
  delete_everyone-events :
      (i : ℕ) (rest l : List Ignore) → any p (delete_everyone svs i rest l).1 ≡ false
  unfolding delete_everyone any
  delete_everyone-events i [] l = refl
  delete_everyone-events i (e ∷ rest) l = elim (Bool-cases (is_everyone e)) [
    | inl hit ↦ rw hit (rw o.removed (delete_everyone-events i rest (svs.svsignore_delete i l)))
    | inr miss ↦ rw miss (delete_everyone-events (i + 1) rest l)
  ]

  defcon_svsignore-events :
      (now : ℕ) (level : ℤ) (l : List Ignore) → any p (defcon_svsignore svs now level l).1 ≡ false
  unfolding defcon_svsignore any
  defcon_svsignore-events now level l = ground (arith, delete_everyone-events 0 l l, o.added)

  defcon_forcechanmodes-events :
      (level : ℤ) (chanlist : List Text) → any p (defcon_forcechanmodes svs level chanlist) ≡ false
  unfolding defcon_forcechanmodes any
  defcon_forcechanmodes-events level [] = refl
  defcon_forcechanmodes-events level (ch ∷ chanlist) = ground (
    arith,
    o.mode ch (codes "+R"),
    o.mode ch (codes "-R"),
    defcon_forcechanmodes-events level chanlist,
  )

  -- Such a test sees of a change of level what was done to the timer.
  set_level-events :
      (now timeout handle : ℕ) (chanlist : List Text) (n : ℤ) (d : Defcon)
      → let l = (defcon_svsignore svs now n d.ignores).0 in
        let timed = arm_timer svs timeout handle (record d { level = n; ignores = l }) in
        (any p (set_level svs now timeout handle chanlist n d).1 ≡ any p timed.1)
        × ((set_level svs now timeout handle chanlist n d).0 ≡ timed.0)
  unfolding set_level
  set_level-events now timeout handle chanlist n d =
      let l = (defcon_svsignore svs now n d.ignores).0 in
      let timed = arm_timer svs timeout handle (record d { level = n; ignores = l }) in
      (
        simp (any-append, defcon_svsignore-events, defcon_forcechanmodes-events, o.said)
            (ground arith),
        refl,
      )

arming-IsOther : IsOther is_arming
unfolding any
arming-IsOther = record { added = refl; removed = refl; mode = λ ch m. refl; said = λ n. refl }

destroying-IsOther : (old : ℕ) → IsOther (is_destroying old)
unfolding any
destroying-IsOther old = record {
  added = refl;
  removed = refl;
  mode = λ ch m. refl;
  said = λ n. refl;
}

destroying_another-IsOther : (old : ℕ) → IsOther (is_destroying_other old)
unfolding any
destroying_another-IsOther old = record {
  added = refl;
  removed = refl;
  mode = λ ch m. refl;
  said = λ n. refl;
}

module _ (svs : Svsignores) where
  arm_timer_armed :
      (timeout handle old : ℕ) (d : Defcon)
      → d.defcon_timer ≡ some old
      → let timed = arm_timer svs timeout handle d in
        (timed.0.defcon_timer ≡ (if below d.level 5 then some old else none))
        × (any is_arming timed.1 ≡ false)
        × (any (is_destroying old) timed.1 ≡ not (below d.level 5))
        × (any (is_destroying_other old) timed.1 ≡ false)
  unfolding arm_timer any
  arm_timer_armed timeout handle old d t = ground (arith, t, ==_iff old old)

  -- When the timer fires, the level is 5 again, but the handle of the timer, which the event loop
  -- lets go of after one firing, is kept. So the next level below 5 gets no timer, and DEFCON 5
  -- destroys the timer that has fired, and no other.
  pub fired_timer_stays :
      (now later timeout handle old : ℕ) (chanlist : List Text) (s : Text) (d : Defcon)
      → d.defcon_timer ≡ some old
      → in_range (atoi s) ≡ true
      → let fired = (defcon_timeoutfunc svs now chanlist d).0 in
        let again = os_cmd_defcon svs later timeout handle chanlist (some s) fired in
        (fired.level ≡ pos 5)
        × (any is_arming again.1 ≡ false)
        × (again.0.defcon_timer ≡ (if below (atoi s) 5 then some old else none))
        × (any (is_destroying old) again.1 ≡ not (below (atoi s) 5))
        × (any (is_destroying_other old) again.1 ≡ false)
  unfolding defcon_timeoutfunc os_cmd_defcon
  fired_timer_stays now later timeout handle old chanlist s d t r =
      let n = atoi s in
      let fired = (defcon_timeoutfunc svs now chanlist d).0 in
      let l = (defcon_svsignore svs later n fired.ignores).0 in
      let armed =
        set_level-events svs is_arming arming-IsOther later timeout handle chanlist n fired in
      let destroyed =
        set_level-events svs (is_destroying old) (destroying-IsOther old) later timeout handle
          chanlist n fired in
      let spared =
        set_level-events svs (is_destroying_other old) (destroying_another-IsOther old) later
          timeout handle chanlist n fired in
      let timed = arm_timer_armed timeout handle old (record fired { level = n; ignores = l }) t in
      (refl, ground arith, ground arith, ground arith, ground arith)
