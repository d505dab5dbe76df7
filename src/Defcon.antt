-- ===== src/Defcon.antt =====
-- src/os_defcon.c: the DEFCON levels of OperServ. The state is `level`, `defcon_timer` and atheme's
-- list of service ignores. The service operserv is taken to be there, as the code takes it.
pub mod Ignores
pub mod Levels
pub mod Timer
pub mod Hooks
mod Tests
use atheme_contrib_modules.Prelude.{
  ℕ, ◌+◌, ◌≡◌, Bool, true, false, not, ◌&&◌, ◌||◌, Option, none, some, List, [], ◌∷◌, ◌++◌, map,
  length, if◌then◌else◌,
}
use atheme_contrib_modules.Prelude.Int.{ℤ, pos, negsuc, ◌≤ℤ◌, ltb_ℤ, pos_part, neg_part}
use atheme_contrib_modules.Services.{Fault, badparams}
use atheme_contrib_modules.Services.Text.{Text, codes, strcasecmp_eq, atoi}
use atheme_contrib_modules.Services.Keyed.{any}

-- A svsignore_t, by what the module reads and writes.
pub record Ignore : Type 0 where
  pub mask : Text
  pub setby : Text
  pub settime : ℕ

-- atheme's svsignore_add() and svsignore_delete(). An entry is deleted by its place in the list, and
-- that entry alone goes; a new entry joins those that are there, at whichever end.
pub record Svsignores : Type 0 where
  pub svsignore_add : Ignore → List Ignore → List Ignore
  pub svsignore_delete : ℕ → List Ignore → List Ignore
  pub any-add :
      (p : Ignore → Bool) (e : Ignore) (l : List Ignore)
      → any p (svsignore_add e l) ≡ (p e || any p l)
  pub delete-middle :
      (kept : List Ignore) (e : Ignore) (rest : List Ignore)
      → svsignore_delete (length kept) (kept ++ e ∷ rest) ≡ kept ++ rest

-- A timer is known by the handle that mowgli_timer_add_once() returned.
pub record Defcon : Type 0 where
  pub level : ℤ
  pub defcon_timer : Option ℕ
  pub ignores : List Ignore

pub data Event : Type 0 where
  command_fail : Fault → Event
  current_level level_set : ℤ → Event
  channel_mode_va : Text → Text → Event
  timer_add_once : ℕ → ℕ → Event
  timer_destroy : Option ℕ → Event
  ignore_added ignore_removed : Event
  notice_changed notice_normal wallops logcommand : ℤ → Event
  log_timeout : Event
  log_kline : Event
  kline_add : Text → Text → ℕ → Event

-- The static initialisers.
abbrev pub initial : List Ignore → Defcon
initial l = record { level = pos 5; defcon_timer = none; ignores = l }

-- The comparisons of the level with a small number.
abbrev pub below : ℤ → ℕ → Bool
below n k = ltb_ℤ n (pos k)

abbrev is_everyone : Ignore → Bool
is_everyone i = strcasecmp_eq i.mask (codes "*@*")

abbrev pub everyone : ℕ → Ignore
everyone now = record { mask = codes "*@*"; setby = codes "DEFCON"; settime = now }

-- What the registration hooks read and write: the refusals so far.
pub defcon_nouserreg : Defcon → Option ℕ → Option ℕ × List Event
defcon_nouserreg d none = (none, [])
defcon_nouserreg d (some approved) =
    if below d.level 5
    then (some (approved + 1), command_fail badparams ∷ [])
    else (some approved, [])

pub defcon_nochanreg : Defcon → Option ℕ → Option ℕ × List Event
defcon_nochanreg d none = (none, [])
defcon_nochanreg d (some approved) =
    if below d.level 5
    then (some (approved + 1), command_fail badparams ∷ [])
    else (some approved, [])

-- What the module reads of a user_t; `internal` is is_internal_client(), and `klinesent` the flag
-- UF_KLINESENT.
pub record User : Type 0 where
  pub user : Text
  pub host : Text
  pub internal : Bool
  pub klinesent : Bool

pub defcon_useradd : Defcon → Option User → Option User × List Event
defcon_useradd d none = (none, [])
defcon_useradd d (some u) =
    if u.internal
    then (some u, [])
    else if not (below d.level 1) && below d.level 2
    then if u.klinesent
      then (some u, log_kline ∷ [])
      else (some (record u { klinesent = true }), log_kline ∷ kline_add u.user u.host 900 ∷ [])
    else (some u, [])

module _ (svs : Svsignores) where
  open svs use {svsignore_add, svsignore_delete}

  -- The loop that deletes: `i` is the place of the next entry in the list as it is by then.
  delete_everyone : ℕ → List Ignore → List Ignore → List Ignore × List Event
  delete_everyone i [] l = (l, [])
  delete_everyone i (e ∷ rest) l =
      let hit = is_everyone e in
      let (l', events) =
        delete_everyone (if hit then i else i + 1) rest (if hit then svsignore_delete i l else l) in
      (l', if hit then ignore_removed ∷ events else events)

  pub defcon_svsignore : ℕ → ℤ → List Ignore → List Ignore × List Event
  unfolding delete_everyone any
  defcon_svsignore now level l =
      if below level 3
      then if any is_everyone l
        then (l, [])
        else (svsignore_add (everyone now) l, ignore_added ∷ [])
      else delete_everyone 0 l l

  pub defcon_forcechanmodes : ℤ → List Text → List Event
  defcon_forcechanmodes level chanlist =
      map (λ ch. channel_mode_va ch (if below level 4 then codes "+R" else codes "-R")) chanlist

  pub defcon_timeoutfunc : ℕ → List Text → Defcon → Defcon × List Event
  unfolding defcon_svsignore defcon_forcechanmodes
  defcon_timeoutfunc now chanlist d =
      let (l, events) = defcon_svsignore now (pos 5) d.ignores in
      (
        record d { level = pos 5; ignores = l },
        events
            ++ defcon_forcechanmodes (pos 5) chanlist
            ++ log_timeout ∷ notice_normal (pos 5) ∷ [],
      )

  -- The timer and the notice, once the level is set.
  arm_timer : ℕ → ℕ → Defcon → Defcon × List Event
  arm_timer timeout handle d =
      if below d.level 5
      then elim d.defcon_timer [
        | none ↦ (
          record d { defcon_timer = some handle },
          timer_add_once timeout handle ∷ notice_changed d.level ∷ [],
        )
        | some _ ↦ (d, notice_changed d.level ∷ [])
      ]
      else (
        record d { defcon_timer = none },
        timer_destroy d.defcon_timer ∷ notice_normal d.level ∷ [],
      )

  -- `timeout` is defcon_timeout, and `handle` what mowgli_timer_add_once() would return.
  set_level : ℕ → ℕ → ℕ → List Text → ℤ → Defcon → Defcon × List Event
  unfolding defcon_svsignore defcon_forcechanmodes arm_timer
  set_level now timeout handle chanlist n d =
      let (l, ignored) = defcon_svsignore now n d.ignores in
      let (d', timed) = arm_timer timeout handle (record d { level = n; ignores = l }) in
      (
        d',
        ignored
            ++ (defcon_forcechanmodes n chanlist
                ++ (timed ++ level_set n ∷ wallops n ∷ logcommand n ∷ [])),
      )

  pub os_cmd_defcon : ℕ → ℕ → ℕ → List Text → Option Text → Defcon → Defcon × List Event
  unfolding set_level atoi
  os_cmd_defcon now timeout handle chanlist none d = (d, current_level d.level ∷ [])
  os_cmd_defcon now timeout handle chanlist (some defcon) d =
      let n = atoi defcon in
      if below n 1 || not (below n 6)
      then (record d { level = pos 5 }, command_fail badparams ∷ [])
      else set_level now timeout handle chanlist n d
