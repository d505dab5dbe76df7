-- ===== src/SaveChanmodes/Tests.antt =====
-- The theorem about the file of channel modes at a concrete input.
use atheme_contrib_modules.SaveChanmodes.Restored.{load-save}
use atheme_contrib_modules.Services.Numbers.{print_uint, print_from}
use atheme_contrib_modules.SaveChanmodes.{
  lines_of, Channel, Event, chan_line, topic_line, ban_line, restore_channel, restore_topic,
  restore_ban, os_cmd_loadchanmodes, os_cmd_savechanmodes, log_load, wallops_restore, join,
  channel_mode, handle_topic, topic_sts, modestack_mode_param, chanban_add, restored,
  remember_restart,
}
use atheme_contrib_modules.Services.Keyed.{any}
use atheme_contrib_modules.Services.Text.{Text, codes, strcmp_eq}
use atheme_contrib_modules.Prelude.{
  List, ◌∷◌, ltb, ◌≡◌, Option, if◌then◌else◌, some, [], false, ℕ, arith, refl, true,
}
use mathlib.Core.Option.{none}

abbrev dump : List Channel
dump =
    record {
      name = codes "#a";
      modes = codes "+nt";
      topic = some (codes "joe", 1234, codes " hello there");
      bans = (98, codes "*!*@host") ∷ [];
    }
    ∷ record { name = codes "#b"; modes = codes "+lk 5 key"; topic = none; bans = [] }
    ∷ []

abbrev cut : Text → Text
cut [] = []
cut (c ∷ s) = if ltb c 32 then [] else c ∷ cut s

cut_keeps : (w : Text) → any (λ c. ltb c 32) w ≡ false → cut w ≡ w
unfolding any
cut_keeps [] h = refl
cut_keeps (c ∷ w) h = ground (arith, cut_keeps w)

-- Only one of the channels is there after it was joined.
abbrev found : List Event → Text → Option ℕ
found done name = if strcmp_eq name (codes "#a") then some 7 else none

load-save_example :
    os_cmd_loadchanmodes cut found
      (λ done c. false)
      (λ done c. 12)
      (os_cmd_savechanmodes true dump).0
    ≡ some (
        log_load
        ∷ wallops_restore
        ∷ join (codes "#a")
        ∷ channel_mode 7 (codes "+nt")
        ∷ handle_topic 7 (codes "joe") 1234 (codes " hello there")
        ∷ topic_sts 7 (codes "joe") 1234 12 (codes " hello there")
        ∷ modestack_mode_param 7 98 (codes "*!*@host")
        ∷ chanban_add 7 (codes "*!*@host") 98
        ∷ join (codes "#b")
        ∷ restored
        ∷ remember_restart
        ∷ [])
unfolding lines_of chan_line topic_line ban_line print_uint print_from any restore_channel
    restore_topic restore_ban strcmp_eq
load-save_example = load-save cut found (λ done c. false) (λ done c. 12) cut_keeps dump refl
