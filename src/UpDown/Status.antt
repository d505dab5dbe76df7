-- ===== src/UpDown/Status.antt =====
-- What UP and DOWN make of the status of a user.

use atheme_contrib_modules.UpDown.{
  Ircd, Event, Flags, Modes, up_owner, up_protect, mtype_add, up_op, up_halfop, mtype_del, up_voice,
  m_owner, m_protect, m_op, m_halfop, m_voice, up_modes, upped, down_modes, downed,
}
use atheme_contrib_modules.Prelude.{
  List, ◌∷◌, not, ◌≡◌, ◌||◌, ◌&&◌, true, false, ◌++◌, [], arith, ◌∙◌, ap, refl, Bool,
}

-- What the network makes of the modes that are sent.
abbrev pub sent : List Event → Modes → Modes
sent [] m = m
sent (mtype_add m_owner ∷ l) m = sent l (record m { owner_mode = true })
sent (mtype_add m_protect ∷ l) m = sent l (record m { protect_mode = true })
sent (mtype_add m_op ∷ l) m = sent l (record m { cstatus_op = true })
sent (mtype_add m_halfop ∷ l) m = sent l (record m { halfops_mode = true })
sent (mtype_add m_voice ∷ l) m = sent l (record m { cstatus_voice = true })
sent (mtype_del m_owner ∷ l) m = sent l (record m { owner_mode = false })
sent (mtype_del m_protect ∷ l) m = sent l (record m { protect_mode = false })
sent (mtype_del m_op ∷ l) m = sent l (record m { cstatus_op = false })
sent (mtype_del m_halfop ∷ l) m = sent l (record m { halfops_mode = false })
sent (mtype_del m_voice ∷ l) m = sent l (record m { cstatus_voice = false })
sent (_ ∷ l) m = sent l m

module _ (ircd : Ircd) where
  -- The status with what the automatic flags give: CA_AUTOOP, CA_AUTOHALFOP and CA_AUTOVOICE, and those of
  -- owner and of protection together with CA_AUTOOP; an owner is not protected as well. CA_OP, CA_HALFOP
  -- and CA_VOICE alone give nothing.
  abbrev pub raised : Flags → Modes → Modes
  raised fl m =
      let owner = m.owner_mode || (ircd.uses_owner && fl.useowner && fl.autoop) in
      record {
        owner_mode = owner;
        protect_mode =
            m.protect_mode
            || (ircd.uses_protect && fl.useprotect && fl.autoop && not (ircd.uses_owner && owner));
        cstatus_op = m.cstatus_op || fl.autoop;
        halfops_mode = m.halfops_mode || (ircd.uses_halfops && fl.autohalfop);
        cstatus_voice = m.cstatus_voice || fl.autovoice;
      }

  -- Only what the network does not know stays.
  abbrev pub lowered : Modes → Modes
  lowered m = record {
    owner_mode = not ircd.uses_owner && m.owner_mode;
    protect_mode = not ircd.uses_protect && m.protect_mode;
    cstatus_op = false;
    halfops_mode = not ircd.uses_halfops && m.halfops_mode;
    cstatus_voice = false;
  }

  -- What each of the steps of UP gives.
  abbrev give_owner : Flags → Modes → Modes
  give_owner fl m = record m {
    owner_mode = m.owner_mode || (ircd.uses_owner && fl.useowner && fl.autoop);
  }

  abbrev give_protect : Flags → Modes → Modes
  give_protect fl m = record m {
    protect_mode =
        m.protect_mode
        || (ircd.uses_protect
            && fl.useprotect
            && fl.autoop
            && not (ircd.uses_owner && m.owner_mode));
  }

  abbrev give_op : Flags → Modes → Modes
  give_op fl m = record m { cstatus_op = m.cstatus_op || (fl.autoop) }

  abbrev give_halfop : Flags → Modes → Modes
  give_halfop fl m = record m {
    halfops_mode = m.halfops_mode || (ircd.uses_halfops && fl.autohalfop);
  }

  abbrev give_voice : Flags → Modes → Modes
  give_voice fl m = record m { cstatus_voice = m.cstatus_voice || (fl.autovoice) }

  -- A step that gives a mode, or does nothing: what it makes of the modes, and that the network agrees.
  abbrev Raises : (Modes × List Event) → Modes → Modes → Type 0
  Raises r m m' = (r.0 ≡ m') × ((l : List Event) → sent (r.1 ++ l) m ≡ sent l r.0)

  up_owner-Raises : (fl : Flags) (m : Modes) → Raises (up_owner ircd fl m) m (give_owner fl m)
  unfolding up_owner
  up_owner-Raises fl m = (ground arith, λ l. ground arith)

  up_protect-Raises : (fl : Flags) (m : Modes) → Raises (up_protect ircd fl m) m (give_protect fl m)
  unfolding up_protect
  up_protect-Raises fl m = (ground arith, λ l. ground arith)

  up_op-Raises : (fl : Flags) (m : Modes) → Raises (up_op ircd fl m) m (give_op fl m)
  unfolding up_op
  up_op-Raises fl m = (ground arith, λ l. ground arith)

  up_halfop-Raises : (fl : Flags) (m : Modes) → Raises (up_halfop ircd fl m) m (give_halfop fl m)
  unfolding up_halfop
  up_halfop-Raises fl m = (ground arith, λ l. ground arith)

  up_voice-Raises : (fl : Flags) (m : Modes) → Raises (up_voice ircd fl m) m (give_voice fl m)
  unfolding up_voice
  up_voice-Raises fl m = (ground arith, λ l. ground arith)

  pub up_modes-raised : (fl : Flags) (m : Modes) → (up_modes ircd fl m).0 ≡ raised fl m
  unfolding up_modes
  up_modes-raised fl m =
      let m₁ = (up_owner ircd fl m).0 in
      let m₂ = (up_protect ircd fl m₁).0 in
      let m₃ = (up_op ircd fl m₂).0 in
      let m₄ = (up_halfop ircd fl m₃).0 in
      (up_voice-Raises fl m₄).0
      ∙ ap (give_voice fl) (
          (up_halfop-Raises fl m₃).0
          ∙ ap (give_halfop fl) (
              (up_op-Raises fl m₂).0
              ∙ ap (give_op fl)
                  ((up_protect-Raises fl m₁).0 ∙ ap (give_protect fl) (up_owner-Raises fl m).0)))

  -- CA_OP, CA_HALFOP and CA_VOICE set or cleared.
  abbrev pub with_plain : Bool → Bool → Bool → Flags → Flags
  with_plain o h v fl = record fl { op = o; halfop = h; voice = v }

  up_op-plain :
      (o h v : Bool) (fl : Flags) (m : Modes) → up_op ircd (with_plain o h v fl) m ≡ up_op ircd fl m
  unfolding up_op
  up_op-plain o h v fl m = ground arith

  up_halfop-plain :
      (o h v : Bool) (fl : Flags) (m : Modes)
      → up_halfop ircd (with_plain o h v fl) m ≡ up_halfop ircd fl m
  unfolding up_halfop
  up_halfop-plain o h v fl m = ground arith

  up_voice-plain :
      (o h v : Bool) (fl : Flags) (m : Modes)
      → up_voice ircd (with_plain o h v fl) m ≡ up_voice ircd fl m
  unfolding up_voice
  up_voice-plain o h v fl m = ground arith

  pub up_modes-plain :
      (o h v : Bool) (fl : Flags) (m : Modes)
      → up_modes ircd (with_plain o h v fl) m ≡ up_modes ircd fl m
  unfolding up_modes up_owner up_protect
  up_modes-plain o h v fl m =
      let m₂ = (up_protect ircd fl (up_owner ircd fl m).0).0 in
      let m₃ = (up_op ircd fl m₂).0 in
      let m₄ = (up_halfop ircd fl m₃).0 in
      rw (up_op-plain o h v fl m₂)
        (rw (up_halfop-plain o h v fl m₃) (rw (up_voice-plain o h v fl m₄) refl))

  pub up_modes-sent :
      (fl : Flags) (m : Modes) → sent (up_modes ircd fl m).1 m ≡ (up_modes ircd fl m).0
  unfolding up_modes
  up_modes-sent fl m =
      let (m₁, e₁) = up_owner ircd fl m in
      let (m₂, e₂) = up_protect ircd fl m₁ in
      let (m₃, e₃) = up_op ircd fl m₂ in
      let (m₄, e₄) = up_halfop ircd fl m₃ in
      let (m₅, e₅) = up_voice ircd fl m₄ in
      (up_owner-Raises fl m).1 (e₂ ++ (e₃ ++ (e₄ ++ (e₅ ++ (upped ∷ [])))))
      ∙ (up_protect-Raises fl m₁).1 (e₃ ++ (e₄ ++ (e₅ ++ (upped ∷ []))))
      ∙ (up_op-Raises fl m₂).1 (e₄ ++ (e₅ ++ (upped ∷ [])))
      ∙ (up_halfop-Raises fl m₃).1 (e₅ ++ (upped ∷ []))
      ∙ (up_voice-Raises fl m₄).1 (upped ∷ [])

  raised_again : (fl : Flags) (m : Modes) → raised fl (raised fl m) ≡ raised fl m
  raised_again fl m = ground arith

  up_owner-quiet : (fl : Flags) (m : Modes) → give_owner fl m ≡ m → up_owner ircd fl m ≡ (m, [])
  unfolding up_owner
  up_owner-quiet fl m h = ground (arith, ap (λ k. k.owner_mode) h)

  up_protect-quiet :
      (fl : Flags) (m : Modes) → give_protect fl m ≡ m → up_protect ircd fl m ≡ (m, [])
  unfolding up_protect
  up_protect-quiet fl m h = ground (arith, ap (λ k. k.protect_mode) h)

  up_op-quiet : (fl : Flags) (m : Modes) → give_op fl m ≡ m → up_op ircd fl m ≡ (m, [])
  unfolding up_op
  up_op-quiet fl m h = ground (arith, ap (λ k. k.cstatus_op) h)

  up_halfop-quiet : (fl : Flags) (m : Modes) → give_halfop fl m ≡ m → up_halfop ircd fl m ≡ (m, [])
  unfolding up_halfop
  up_halfop-quiet fl m h = ground (arith, ap (λ k. k.halfops_mode) h)

  up_voice-quiet : (fl : Flags) (m : Modes) → give_voice fl m ≡ m → up_voice ircd fl m ≡ (m, [])
  unfolding up_voice
  up_voice-quiet fl m h = ground (arith, ap (λ k. k.cstatus_voice) h)

  -- A status that has all that UP gives.
  up_modes-quiet :
      (fl : Flags) (m : Modes)
      → give_owner fl m ≡ m
      → give_protect fl m ≡ m
      → give_op fl m ≡ m
      → give_halfop fl m ≡ m
      → give_voice fl m ≡ m
      → up_modes ircd fl m ≡ (m, upped ∷ [])
  unfolding up_modes
  up_modes-quiet fl m a b c d e =
      rw
        (
          up_owner-quiet fl m a,
          up_protect-quiet fl m b,
          up_op-quiet fl m c,
          up_halfop-quiet fl m d,
          up_voice-quiet fl m e,
        )
        refl

  pub up_modes-again :
      (fl : Flags) (m : Modes) → up_modes ircd fl (raised fl m) ≡ (raised fl m, upped ∷ [])
  up_modes-again fl m =
      up_modes-quiet fl (raised fl m) (ground arith) (ground arith) (ground arith) (ground arith)
        (ground arith)

  pub down_modes-lowered :
      (m : Modes)
      → ((down_modes ircd m).0 ≡ lowered m) × (sent (down_modes ircd m).1 m ≡ (down_modes ircd m).0)
  unfolding down_modes
  down_modes-lowered m = (ground arith, ground arith)

  pub down_modes-again : (m : Modes) → down_modes ircd (lowered m) ≡ (lowered m, downed ∷ [])
  unfolding down_modes
  down_modes-again m = ground arith
