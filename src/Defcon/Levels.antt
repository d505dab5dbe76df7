-- ===== src/Defcon/Levels.antt =====
-- What holds of the DEFCON state between two events: the command, the timer and the hooks.
use atheme_contrib_modules.Services.{badparams}
use atheme_contrib_modules.Defcon.Ignores.{not_everyone, defcon_svsignore_lem}
use atheme_contrib_modules.Services.Keyed.{any}
use atheme_contrib_modules.Services.Text.{Text, atoi, codes}
use atheme_contrib_modules.Prelude.{
  Bool, ◌≡◌, ℕ, List, not, true, arith, none, Option, some, ◌&&◌, false, refl, ◌∷◌, [],
}
use atheme_contrib_modules.Defcon.{
  Defcon, Svsignores, arm_timer, os_cmd_defcon, defcon_timeoutfunc, set_level, Ignore, below,
  initial, defcon_svsignore, is_everyone, defcon_nouserreg, command_fail,
}
use atheme_contrib_modules.Prelude.Int.{ℤ, pos}

abbrev pub in_range : ℤ → Bool
in_range n = not (below n 1) && below n 6

abbrev pub is_none {ℓ} : {A : Type ℓ} → Option A → Bool
is_none none = true
is_none (some _) = false

pub record IsSound (d : Defcon) : Type 0 where
  pub ranged : in_range d.level ≡ true
  pub armed : (below d.level 5 && is_none d.defcon_timer) ≡ false

module _ (svs : Svsignores) where
  -- The events that change the state. The environment chooses the time, the parameter, the channels
  -- and the handle that a new timer gets.
  pub data Step (d : Defcon) : Defcon → Type 0 where
    command :
        (now timeout handle : ℕ) (chanlist : List Text) (param : Option Text)
        → Step d (os_cmd_defcon svs now timeout handle chanlist param d).0
    expire : (now : ℕ) (chanlist : List Text) → Step d (defcon_timeoutfunc svs now chanlist d).0

  pub data Reach (d : Defcon) : Defcon → Type 0 where
    here : Reach d d
    next : {e f : Defcon} → Reach d e → Step e f → Reach d f

  arm_timer-IsSound :
      (timeout handle : ℕ) (d : Defcon)
      → in_range d.level ≡ true
      → IsSound (arm_timer svs timeout handle d).0
  unfolding arm_timer
  arm_timer-IsSound timeout handle d h = ground arith

  command-IsSound :
      (now timeout handle : ℕ) (chanlist : List Text) (param : Option Text) (d : Defcon)
      → IsSound d
      → IsSound (os_cmd_defcon svs now timeout handle chanlist param d).0
  unfolding os_cmd_defcon set_level
  command-IsSound now timeout handle chanlist none d v = v
  command-IsSound now timeout handle chanlist (some s) d v =
      let n = atoi s in
      let l = (defcon_svsignore svs now n d.ignores).0 in
      ground (arith, arm_timer-IsSound timeout handle (record d { level = n; ignores = l }))

  Step-IsSound : {d e : Defcon} → Step d e → IsSound d → IsSound e
  unfolding defcon_timeoutfunc
  Step-IsSound {d = d} (command now timeout handle chanlist param) v =
      command-IsSound now timeout handle chanlist param d v
  Step-IsSound {d = d} (expire now chanlist) v = ground arith

  -- Whatever is sent and whenever the timer fires, from the initial state the level stays between
  -- 1 and 5, and at a level below 5 the handle of a timer is kept, which may be one that has fired.
  pub Reach-IsSound : (l : List Ignore) {d : Defcon} → Reach (initial l) d → IsSound d
  Reach-IsSound l here = record { ranged = refl; armed = refl }
  Reach-IsSound l (next r s) = Step-IsSound s (Reach-IsSound l r)

  -- A level that is asked for and lies between 1 and 5 is set, services ignore *@* exactly at the
  -- levels 1 and 2, and the other ignores are as they were.
  pub os_cmd_defcon_sets :
      (now timeout handle : ℕ) (chanlist : List Text) (s : Text) (d : Defcon) (p : Ignore → Bool)
      → in_range (atoi s) ≡ true
      → let after = (os_cmd_defcon svs now timeout handle chanlist (some s) d).0 in
        (after.level ≡ atoi s)
        × (any is_everyone after.ignores ≡ below (atoi s) 3)
        × (any (λ e. not_everyone e && p e) after.ignores
            ≡ any (λ e. not_everyone e && p e) d.ignores)
  unfolding os_cmd_defcon set_level arm_timer
  os_cmd_defcon_sets now timeout handle chanlist s d p h =
      let ignores = defcon_svsignore_lem svs now (atoi s) d.ignores p in ground arith

  refused_reply :
      (now timeout handle : ℕ) (chanlist : List Text) (s : Text) (d : Defcon)
      → in_range (atoi s) ≡ false
      → os_cmd_defcon svs now timeout handle chanlist (some s) d
        ≡ (record d { level = pos 5 }, command_fail badparams ∷ [])
  unfolding os_cmd_defcon
  refused_reply now timeout handle chanlist s d h = ground arith

  -- A level below 5 sees to it that there is a handle, and 5 that there is none.
  timer_kept :
      (now timeout handle : ℕ) (chanlist : List Text) (s : Text) (d : Defcon)
      → in_range (atoi s) ≡ true
      → is_none (os_cmd_defcon svs now timeout handle chanlist (some s) d).0.defcon_timer
        ≡ not (below (atoi s) 5)
  unfolding os_cmd_defcon set_level arm_timer
  timer_kept now timeout handle chanlist s d h = ground arith

  timer_ended :
      (now timeout handle : ℕ) (chanlist : List Text) (s : Text) (d : Defcon)
      → atoi s ≡ pos 5
      → (os_cmd_defcon svs now timeout handle chanlist (some s) d).0.defcon_timer ≡ none
  unfolding os_cmd_defcon set_level arm_timer
  timer_ended now timeout handle chanlist s d h = rw h refl

  -- After a command that sets a level, one with a parameter that is no level replies with the failure
  -- and does nothing else that is seen: it sets the level to 5, where users may register again, while
  -- *@* stays ignored if the level before was 1 or 2, and the handle of the timer stays. DEFCON 5 in its
  -- place would have ended both.
  pub os_cmd_defcon_refuses :
      (now later timeout handle other : ℕ) (chanlist : List Text) (s t : Text) (d : Defcon)
      → in_range (atoi s) ≡ true
      → in_range (atoi t) ≡ false
      → let locked = (os_cmd_defcon svs now timeout handle chanlist (some s) d).0 in
        let (refused, replies) = os_cmd_defcon svs later timeout other chanlist (some t) locked in
        let normal = (os_cmd_defcon svs later timeout other chanlist (some (codes "5")) locked).0 in
        (replies ≡ command_fail badparams ∷ [])
        × (refused.level ≡ pos 5)
        × (defcon_nouserreg refused (some 0) ≡ (some 0, []))
        × (any is_everyone refused.ignores ≡ below (atoi s) 3)
        × (refused.defcon_timer ≡ locked.defcon_timer)
        × (is_none refused.defcon_timer ≡ not (below (atoi s) 5))
        × (any is_everyone normal.ignores ≡ false)
        × (normal.defcon_timer ≡ none)
  unfolding atoi defcon_nouserreg
  os_cmd_defcon_refuses now later timeout handle other chanlist s t d h k =
      let locked = (os_cmd_defcon svs now timeout handle chanlist (some s) d).0 in
      let (_, everyone, _) = os_cmd_defcon_sets now timeout handle chanlist s d (λ _. true) h in
      let (_, lifted, _) =
        os_cmd_defcon_sets later timeout other chanlist (codes "5") locked (λ _. true) refl in
      rw (refused_reply later timeout other chanlist t locked k) (
        refl,
        refl,
        refl,
        everyone,
        refl,
        timer_kept now timeout handle chanlist s d h,
        lifted,
        timer_ended later timeout other chanlist (codes "5") locked refl,
      )
