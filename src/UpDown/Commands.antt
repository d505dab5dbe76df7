-- ===== src/UpDown/Commands.antt =====
-- UP and DOWN for a user who is in the channel.
use atheme_contrib_modules.UpDown.Status.{
  sent, raised, lowered, down_modes-lowered, up_modes-raised, up_modes-sent, up_modes-again,
  down_modes-again, with_plain, up_modes-plain,
}
use atheme_contrib_modules.Prelude.{
  List, ◌≡◌, false, true, some, arith, ap, ◌∙◌, sym, ◌∷◌, [], refl, Bool,
}
use atheme_contrib_modules.UpDown.{
  Ircd, Mychan, cs_cmd_up, Modes, cs_cmd_down, Flags, Event, guarded, set_modes, upped, downed,
  up_modes, down_modes,
}
use atheme_contrib_modules.Services.Text.{Text}

-- The tests of the commands let a user pass who is in a channel that is there and not closed.
guarded_in :
    (name : Text) (mc : Mychan) (m : Modes) (act : Modes → Modes × List Event)
    → mc.closed ≡ false
    → mc.chan ≡ true
    → mc.su ≡ true
    → mc.cu ≡ some m
    → guarded (some name) (some mc) act ≡ (some (set_modes mc (act m).0), (act m).1)
guarded_in name mc m act a b c d = ground arith

-- A command that makes `m'` of the modes, tells the network, and does nothing to `m'`.
guarded_again :
    (name : Text) (mc : Mychan) (m m' : Modes) (act : Modes → Modes × List Event) (e : List Event)
    → mc.closed ≡ false
    → mc.chan ≡ true
    → mc.su ≡ true
    → mc.cu ≡ some m
    → (act m).0 ≡ m'
    → sent (act m).1 m ≡ (act m).0
    → act m' ≡ (m', e)
    → let (r, events) = guarded (some name) (some mc) act in
      (r ≡ some (set_modes mc m')) × (sent events m ≡ m') × (guarded (some name) r act ≡ (r, e))
guarded_again name mc m m' act e a b c d f g h =
    let first = guarded_in name mc m act a b c d in
    let after : (guarded (some name) (some mc) act).0 ≡ some (set_modes mc m') =
      ap (λ p. p.0) first ∙ ap (λ k. some (set_modes mc k)) f in
    let second : guarded (some name) (some (set_modes mc m')) act ≡ (some (set_modes mc m'), e) =
      guarded_in name (set_modes mc m') m' act a b c refl
      ∙ ap (λ p. (some (set_modes mc p.0), p.1)) h in
    (
      after,
      ap (λ p. sent p.1 m) first ∙ g ∙ f,
      ap (λ r. guarded (some name) r act) after ∙ second ∙ ap (λ r. (r, e)) (sym after),
    )

module _ (ircd : Ircd) where
  -- For a user in a registered channel that is there and not closed, UP gives, besides what he has,
  -- exactly the status of the automatic flags of his access, op, halfop and voice, and with the automatic
  -- op also that of owner or else of protection, if he has its flag, as far as the network has these
  -- modes; the flags of op, halfop and voice that are not automatic make no difference; DOWN takes all away that the network knows; the modes that are sent change the status
  -- on the network in the same way; and the command once more changes nothing and sends no mode.
  pub up_down :
      (fl : Flags) (o h v : Bool) (name : Text) (mc : Mychan) (m : Modes)
      → mc.closed ≡ false
      → mc.chan ≡ true
      → mc.su ≡ true
      → mc.cu ≡ some m
      → let (up, gave) = cs_cmd_up ircd fl (some name) (some mc) in
        let (down, took) = cs_cmd_down ircd (some name) (some mc) in
        (up ≡ some (set_modes mc (raised ircd fl m)))
        × (sent gave m ≡ raised ircd fl m)
        × (cs_cmd_up ircd (with_plain ircd o h v fl) (some name) (some mc) ≡ (up, gave))
        × (cs_cmd_up ircd fl (some name) up ≡ (up, upped ∷ []))
        × (down ≡ some (set_modes mc (lowered ircd m)))
        × (sent took m ≡ lowered ircd m)
        × (cs_cmd_down ircd (some name) down ≡ (down, downed ∷ []))
  unfolding cs_cmd_up cs_cmd_down
  up_down fl o h v name mc m a b c d =
      let (low, took) = down_modes-lowered ircd m in
      let plain =
        guarded_in name mc m (up_modes ircd (with_plain ircd o h v fl)) a b c d
        ∙ ap (λ r. (some (set_modes mc r.0), r.1)) (up_modes-plain ircd o h v fl m)
        ∙ sym (guarded_in name mc m (up_modes ircd fl) a b c d) in
      let (r, s, t) =
        guarded_again name mc m (raised ircd fl m) (up_modes ircd fl) (upped ∷ []) a b c d
          (up_modes-raised ircd fl m) (up_modes-sent ircd fl m) (up_modes-again ircd fl m) in
      let (x, y, z) =
        guarded_again name mc m (lowered ircd m) (down_modes ircd) (downed ∷ []) a b c d low took
          (down_modes-again ircd m) in
      (r, s, plain, t, x, y, z)
