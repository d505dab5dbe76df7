-- ===== src/Badwords/Enforce.antt =====
-- What a message in a channel leads to.
use atheme_contrib_modules.Services.Keyed.{any}
use atheme_contrib_modules.Services.Text.{Text}
use atheme_contrib_modules.Prelude.{
  Bool, ℕ, true, ◌≡◌, false, List, none, [], some, ◌&&◌, ◌++◌, if◌then◌else◌, arith, ◌∷◌, not, refl,
  Option,
}
use atheme_contrib_modules.Services.Metadata.{Metadata, is_some}
use atheme_contrib_modules.Badwords.{
  punish, Event, valid_action, Mychan, enforce, on_channel_message, Chanuser, Message, block_key,
  Badword, exempt,
}

-- Every action that ADD accepts is one that the message hook carries out.
pub punish-valid :
    (bufsize : ℕ) (quiets : Bool) (vhost action : Text)
    → valid_action quiets action ≡ true
    → is_some (punish bufsize vhost action) ≡ true
unfolding punish valid_action
punish-valid bufsize quiets vhost action h = ground arith

module _ {M : Type 0} (md : Metadata M) (glob : Text → Text → Bool) (bufsize : ℕ) where
  abbrev pub blocking : Mychan M → Bool
  blocking mc = is_some (md.metadata_find block_key mc.meta)

  enforce-passes :
      (mc : Mychan M) (cu : Chanuser) (vhost msg : Text) (before rest : List Badword)
      → any (λ bw. glob bw.badword msg && is_some (punish bufsize vhost bw.action)) before ≡ false
      → enforce md glob bufsize mc (some cu) vhost msg (before ++ rest)
        ≡ (if exempt md mc cu then [] else enforce md glob bufsize mc (some cu) vhost msg rest)
  unfolding enforce any
  enforce-passes mc cu vhost msg [] [] h = ground arith
  enforce-passes mc cu vhost msg [] (bw ∷ rest) h = ground arith
  enforce-passes mc cu vhost msg (bw ∷ before) rest h =
      ground (arith, enforce-passes mc cu vhost msg before rest)

  -- In a channel that blocks bad words, a message of a user who is not exempt is punished once, by the
  -- action of the first word that matches it and whose action is known; words behind that one do not
  -- count. Exempt are the channel's operators where the flag for them is set.
  pub on_channel_message-first :
      (mc : Mychan M) (cu : Chanuser) (vhost msg : Text) (before rest : List Badword) (bw : Badword)
      (events : List Event)
      → any (λ w. glob w.badword msg && is_some (punish bufsize vhost w.action)) before ≡ false
      → glob bw.badword msg ≡ true
      → punish bufsize vhost bw.action ≡ some events
      → on_channel_message md glob bufsize
          (some (record mc { badwords = before ++ bw ∷ rest }))
          (record { cu = some cu; vhost = vhost; msg = some msg })
        ≡ (if blocking mc && not (exempt md mc cu) then events else [])
  unfolding on_channel_message enforce
  on_channel_message-first mc cu vhost msg before rest bw events h g p =
      let mc' = record mc { badwords = before ++ bw ∷ rest } in
      ground (arith, enforce-passes mc' cu vhost msg before (bw ∷ rest))

  enforce_unmatched :
      (mc : Mychan M) (cu : Option Chanuser) (vhost msg : Text) (l : List Badword)
      → any (λ w. glob w.badword msg) l ≡ false
      → enforce md glob bufsize mc cu vhost msg l ≡ []
  unfolding enforce any
  enforce_unmatched mc cu vhost msg [] h = refl
  enforce_unmatched mc none vhost msg (bw ∷ l) h = refl
  enforce_unmatched mc (some cu) vhost msg (bw ∷ l) h =
      ground (arith, enforce_unmatched mc (some cu) vhost msg l)

  enforce_absent :
      (mc : Mychan M) (vhost msg : Text) (l : List Badword)
      → enforce md glob bufsize mc none vhost msg l ≡ []
  unfolding enforce
  enforce_absent mc vhost msg [] = refl
  enforce_absent mc vhost msg (bw ∷ l) = refl

  -- No one is punished in a channel that is not registered or does not block bad words, for a
  -- message that no word matches, or who is not in the channel.
  pub on_channel_message_silent :
      (mc : Mychan M) (message : Message) (msg : Text)
      → any (λ w. glob w.badword msg) mc.badwords ≡ false
      → (on_channel_message md glob bufsize none message ≡ [])
        × (on_channel_message md glob bufsize (some mc) (record message { msg = some msg }) ≡ [])
        × (on_channel_message md glob bufsize (some mc) (record message { cu = none }) ≡ [])
        × ((if blocking mc then [] else on_channel_message md glob bufsize (some mc) message) ≡ [])
  unfolding on_channel_message
  on_channel_message_silent mc message msg h = (
    refl,
    rw (enforce_unmatched mc message.cu message.vhost msg mc.badwords h, on_channel_message)
        (ground arith),
    absent message.msg,
    ground arith,
  )
    where
      absent :
          (m : Option Text)
          → on_channel_message md glob bufsize
              (some mc)
              (record { cu = none; vhost = message.vhost; msg = m })
            ≡ []
      absent none = ground arith
      absent (some m) =
          rw (enforce_absent mc message.vhost m mc.badwords, on_channel_message) (ground arith)
