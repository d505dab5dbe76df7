-- ===== src/UpDown.antt =====
-- src/cs_updown.c: UP gives a user the status in a channel that the automatic flags of his access give,
-- and DOWN takes all status away. The state is cu->modes, where each mode of the network has a bit of its own.
pub mod Status
pub mod Commands
mod Tests
use mathlib.Core.Option.{none}
use atheme_contrib_modules.Services.Text.{Text, codes}
use atheme_contrib_modules.Services.{Fault, needmoreparams, noprivs, nosuch_target}
use atheme_contrib_modules.Prelude.{
  ℕ, List, Option, Bool, ◌∷◌, map, [], some, ◌++◌, if◌then◌else◌, none, ltb, length, take, ◌-◌,
  ◌&&◌, ◌||◌, not, true, false,
}

-- Which modes the network has.
pub record Ircd : Type 0 where
  pub uses_owner : Bool
  pub uses_protect : Bool
  pub uses_halfops : Bool

-- The bits of chanacs_user_flags() that UP reads.
pub record Flags : Type 0 where
  pub useowner : Bool
  pub useprotect : Bool
  pub autoop : Bool
  pub op : Bool
  pub autohalfop : Bool
  pub halfop : Bool
  pub autovoice : Bool
  pub voice : Bool

-- cu->modes.
pub record Modes : Type 0 where
  pub owner_mode : Bool
  pub protect_mode : Bool
  pub cstatus_op : Bool
  pub halfops_mode : Bool
  pub cstatus_voice : Bool

pub data Mode : Type 0 where
  m_owner m_protect m_op m_halfop m_voice : Mode

pub data Event : Type 0 where
  command_fail : Fault → Event
  mtype_add mtype_del : Mode → Event
  upped downed : Event

-- What the commands look up: the channel, if it is registered, whether it is closed and whether it is
-- there, whether the source is a user, and his status, if he is in the channel.
pub record Mychan : Type 0 where
  pub closed : Bool
  pub chan : Bool
  pub su : Bool
  pub cu : Option Modes

abbrev pub set_modes : Mychan → Modes → Mychan
set_modes mc m = record mc { cu = some m }

-- One bit: whether it is given or taken, the mode that is sent, and the changed modes.
abbrev pub step : Bool → Event → Modes → Modes → Modes × List Event
step does e changed m = if does then (changed, e ∷ []) else (m, [])

module _ (ircd : Ircd) where
  up_owner : Flags → Modes → Modes × List Event
  up_owner fl m =
      if ircd.uses_owner
      then if fl.useowner
        then step (fl.autoop && not m.owner_mode) (mtype_add m_owner)
            (record m { owner_mode = true }) m
        else (m, [])
      else (m, [])

  up_protect : Flags → Modes → Modes × List Event
  up_protect fl m =
      if ircd.uses_protect
      then if fl.useprotect
        then step (fl.autoop && not m.protect_mode && not (ircd.uses_owner && m.owner_mode))
            (mtype_add m_protect) (record m { protect_mode = true }) m
        else (m, [])
      else (m, [])

  up_op : Flags → Modes → Modes × List Event
  up_op fl m =
      if fl.autoop || fl.op
      then step (fl.autoop && not m.cstatus_op) (mtype_add m_op) (record m { cstatus_op = true }) m
      else (m, [])

  up_halfop : Flags → Modes → Modes × List Event
  up_halfop fl m =
      if ircd.uses_halfops
      then if fl.autohalfop || fl.halfop
        then step (fl.autohalfop && not m.halfops_mode) (mtype_add m_halfop)
            (record m { halfops_mode = true }) m
        else (m, [])
      else (m, [])

  up_voice : Flags → Modes → Modes × List Event
  up_voice fl m =
      if fl.autovoice || fl.voice
      then step (fl.autovoice && not m.cstatus_voice) (mtype_add m_voice)
          (record m { cstatus_voice = true }) m
      else (m, [])

  -- The statements of UP on the modes, one after the other.
  pub up_modes : Flags → Modes → Modes × List Event
  unfolding up_owner up_protect up_op up_halfop up_voice
  up_modes fl m =
      let (m₁, e₁) = up_owner fl m in
      let (m₂, e₂) = up_protect fl m₁ in
      let (m₃, e₃) = up_op fl m₂ in
      let (m₄, e₄) = up_halfop fl m₃ in
      let (m₅, e₅) = up_voice fl m₄ in (m₅, e₁ ++ (e₂ ++ (e₃ ++ (e₄ ++ (e₅ ++ (upped ∷ []))))))

  -- The statements of DOWN.
  pub down_modes : Modes → Modes × List Event
  down_modes m =
      let (m₁, e₁) =
        step (ircd.uses_owner && m.owner_mode) (mtype_del m_owner) (record m { owner_mode = false })
          m in
      let (m₂, e₂) =
        step (ircd.uses_protect && m₁.protect_mode) (mtype_del m_protect)
          (record m₁ { protect_mode = false }) m₁ in
      let (m₃, e₃) = step m₂.cstatus_op (mtype_del m_op) (record m₂ { cstatus_op = false }) m₂ in
      let (m₄, e₄) =
        step (ircd.uses_halfops && m₃.halfops_mode) (mtype_del m_halfop)
          (record m₃ { halfops_mode = false }) m₃ in
      let (m₅, e₅) =
        step m₄.cstatus_voice (mtype_del m_voice) (record m₄ { cstatus_voice = false }) m₄ in
      (m₅, e₁ ++ (e₂ ++ (e₃ ++ (e₄ ++ (e₅ ++ (downed ∷ []))))))

-- The tests that both commands make first.
abbrev pub guarded :
    Option Text → Option Mychan → (Modes → Modes × List Event) → Option Mychan × List Event
guarded none mc act = (mc, command_fail needmoreparams ∷ command_fail needmoreparams ∷ [])
guarded (some name) none act = (none, command_fail nosuch_target ∷ [])
guarded (some name) (some mc) act =
    if mc.closed
    then (some mc, command_fail noprivs ∷ [])
    else if not mc.chan
    then (some mc, command_fail nosuch_target ∷ [])
    else if not mc.su
    then (some mc, [])
    else elim mc.cu [
      | none ↦ (some mc, command_fail nosuch_target ∷ [])
      | some m ↦ let (m', events) = act m in (some (set_modes mc m'), events)
    ]

module _ (ircd : Ircd) where
  -- `name` is the parameter, `mc` what mychan_find() finds for it.
  pub cs_cmd_up : Flags → Option Text → Option Mychan → Option Mychan × List Event
  unfolding up_modes
  cs_cmd_up fl name mc = guarded name mc (up_modes ircd fl)

  pub cs_cmd_down : Option Text → Option Mychan → Option Mychan × List Event
  unfolding down_modes
  cs_cmd_down name mc = guarded name mc (down_modes ircd)
