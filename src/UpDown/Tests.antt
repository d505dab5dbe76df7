-- ===== src/UpDown/Tests.antt =====
-- The theorem about UP and DOWN at a concrete input.
use atheme_contrib_modules.UpDown.Commands.{up_down}
use atheme_contrib_modules.UpDown.Status.{raised, sent, lowered, with_plain}
use atheme_contrib_modules.UpDown.{
  Ircd, Flags, Modes, Mychan, cs_cmd_up, cs_cmd_down, set_modes, upped, downed,
}
use atheme_contrib_modules.Services.Text.{codes}
use atheme_contrib_modules.Prelude.{true, false, some, ◌≡◌, ◌∷◌, [], refl}

abbrev network : Ircd
network = record { uses_owner = true; uses_protect = true; uses_halfops = false }

abbrev founder : Flags
founder = record {
  useowner = true;
  useprotect = true;
  autoop = true;
  op = true;
  autohalfop = true;
  halfop = false;
  autovoice = false;
  voice = true;
}

abbrev voiced : Modes
voiced = record {
  owner_mode = false;
  protect_mode = false;
  cstatus_op = false;
  halfops_mode = false;
  cstatus_voice = true;
}

abbrev open_channel : Mychan
open_channel = record { closed = false; chan = true; su = true; cu = some voiced }

up_down_example :
    let (up, gave) = cs_cmd_up network founder (some (codes "#c")) (some open_channel) in
    let (down, took) = cs_cmd_down network (some (codes "#c")) (some open_channel) in
    (up ≡ some (set_modes open_channel (raised network founder voiced)))
    × (sent gave voiced ≡ raised network founder voiced)
    × (cs_cmd_up network
          (with_plain network false true false founder)
          (some (codes "#c"))
          (some open_channel)
        ≡ (up, gave))
    × (cs_cmd_up network founder (some (codes "#c")) up ≡ (up, upped ∷ []))
    × (down ≡ some (set_modes open_channel (lowered network voiced)))
    × (sent took voiced ≡ lowered network voiced)
    × (cs_cmd_down network (some (codes "#c")) down ≡ (down, downed ∷ []))
up_down_example =
    up_down network founder false true false (codes "#c") open_channel voiced refl refl refl refl
