-- ===== src/SaveChanmodes/Restored.antt =====
-- What LOADCHANMODES does with the file that SAVECHANMODES wrote.
use atheme_contrib_modules.Services.Keyed.{any}
use atheme_contrib_modules.SaveChanmodes.Lines.{
  are_lines, is_token, load_all, lacks, load, load-topic, load-topic_none, load-ban, load-ban_none,
  load-chan, load_lines-written, length-written,
}
use atheme_contrib_modules.Services.Text.{Text}
use atheme_contrib_modules.SaveChanmodes.{
  Channel, all_lines, Event, restore_topic, restore_ban, restore_channel, ulong, lines_of,
  topic_lines, ban_line, os_cmd_loadchanmodes, os_cmd_savechanmodes, log_load, wallops_restore,
  restored, remember_restart, written,
}
use atheme_contrib_modules.Prelude.{
  Option, List, ℕ, Bool, ◌≡◌, true, some, ◌∷◌, ◌++◌, ◌&&◌, arith, ltb, [], false, map, refl, ap,
  ◌∙◌, suc, length,
}
use mathlib.Core.Option.{none}

-- Texts that can be told apart in a line.
abbrev pub is_topic : Option (Text × ℕ × Text) → Bool
is_topic none = true
is_topic (some (setter, ts, text)) = is_token 32 setter && ltb ts ulong && is_token 10 text

abbrev pub are_bans : List (ℕ × Text) → Bool
are_bans [] = true
are_bans ((type, mask) ∷ bs) = lacks 32 (type ∷ []) && is_token 10 mask && are_bans bs

abbrev pub is_writable : Channel → Bool
is_writable c =
    is_token 32 c.name
    && is_token 10 c.modes
    && is_topic c.topic
    && are_bans c.bans
    && are_lines (lines_of c)

abbrev pub are_writable : List Channel → Bool
are_writable [] = true
are_writable (c ∷ cs) = is_writable c && are_writable cs

are_lines-append : (ls ms : List Text) → are_lines (ls ++ ms) ≡ (are_lines ls && are_lines ms)
are_lines-append [] ms = refl
are_lines-append (l ∷ ls) ms = ground (arith, are_lines-append ls ms)

are_lines-all : (cs : List Channel) → are_writable cs ≡ true → are_lines (all_lines cs) ≡ true
are_lines-all [] h = refl
are_lines-all (c ∷ cs) h =
    ground (arith, are_lines-append (lines_of c) (all_lines cs), are_lines-all cs)

module _ (strip : Text → Text) (find : List Event → Text → Option ℕ)
    (has_topic : List Event → ℕ → Bool) (topicts : List Event → ℕ → ℕ) where
  -- The channels set again from the records themselves, without a file.
  abbrev pub set_topic : ℕ → Option (Text × ℕ × Text) → List Event → List Event
  set_topic c none done = done
  set_topic c (some (setter, ts, text)) done =
      restore_topic strip find has_topic topicts c setter ts text done

  abbrev pub set_bans : ℕ → List (ℕ × Text) → List Event → List Event
  set_bans c [] done = done
  set_bans c ((type, mask) ∷ bs) done =
      set_bans c bs (restore_ban strip find has_topic topicts c type mask done)

  abbrev pub set_rest : Channel → Option ℕ × List Event → Option ℕ × List Event
  set_rest c (none, done) = (none, done)
  set_rest c (some p, done) = (some p, set_bans p c.bans (set_topic p c.topic done))

  abbrev pub set_all : List Channel → Option ℕ × List Event → Option ℕ × List Event
  set_all [] st = st
  set_all (c ∷ cs) st =
      set_all cs (set_rest c (restore_channel strip find has_topic topicts c.name c.modes st.1))

  load_all-append :
      (ls ms : List Text) (st : Option ℕ × List Event)
      → load_all strip find has_topic topicts (ls ++ ms) st
        ≡ load_all strip find has_topic topicts ms (load_all strip find has_topic topicts ls st)
  load_all-append [] ms st = refl
  load_all-append (l ∷ ls) ms st = load_all-append ls ms (load strip find has_topic topicts l st)

  module _ (keeps : (w : Text) → any (λ c. ltb c 32) w ≡ false → strip w ≡ w) where
    loaded_bans :
        (bs : List (ℕ × Text)) (p : ℕ) (done : List Event)
        → are_bans bs ≡ true
        → load_all strip find has_topic topicts (map ban_line bs) (some p, done)
          ≡ (some p, set_bans p bs done)
    loaded_bans [] p done h = refl
    loaded_bans ((type, mask) ∷ bs) p done h =
        ap (load_all strip find has_topic topicts (map ban_line bs)) (
          load-ban strip find has_topic topicts keeps (type, mask) p done (ground arith)
            (ground arith))
        ∙ loaded_bans bs p (restore_ban strip find has_topic topicts p type mask done)
            (ground arith)

    passed_bans :
        (bs : List (ℕ × Text)) (done : List Event)
        → load_all strip find has_topic topicts (map ban_line bs) (none, done) ≡ (none, done)
    passed_bans [] done = refl
    passed_bans (b ∷ bs) done =
        ap (load_all strip find has_topic topicts (map ban_line bs))
          (load-ban_none strip find has_topic topicts keeps b done)
        ∙ passed_bans bs done

    loaded_topic :
        (t : Option (Text × ℕ × Text)) (p : ℕ) (done : List Event)
        → is_topic t ≡ true
        → load_all strip find has_topic topicts (topic_lines t) (some p, done)
          ≡ (some p, set_topic p t done)
    loaded_topic none p done h = refl
    loaded_topic (some (setter, ts, text)) p done h =
        load-topic strip find has_topic topicts keeps setter ts text p done (ground arith)
          (ground arith) (ground arith)

    passed_topic :
        (t : Option (Text × ℕ × Text)) (done : List Event)
        → load_all strip find has_topic topicts (topic_lines t) (none, done) ≡ (none, done)
    passed_topic none done = refl
    passed_topic (some (setter, ts, text)) done =
        load-topic_none strip find has_topic topicts keeps setter ts text done

    loaded_rest :
        (c : Channel) (st : Option ℕ × List Event)
        → is_topic c.topic ≡ true
        → are_bans c.bans ≡ true
        → load_all strip find has_topic topicts (topic_lines c.topic ++ map ban_line c.bans) st
          ≡ set_rest c st
    loaded_rest c (none, done) h k =
        load_all-append (topic_lines c.topic) (map ban_line c.bans) (none, done)
        ∙ ap (load_all strip find has_topic topicts (map ban_line c.bans))
            (passed_topic c.topic done)
        ∙ passed_bans c.bans done
    loaded_rest c (some p, done) h k =
        load_all-append (topic_lines c.topic) (map ban_line c.bans) (some p, done)
        ∙ ap (load_all strip find has_topic topicts (map ban_line c.bans))
            (loaded_topic c.topic p done h)
        ∙ loaded_bans c.bans p (set_topic p c.topic done) k

    loaded_all :
        (cs : List Channel) (st : Option ℕ × List Event)
        → are_writable cs ≡ true
        → load_all strip find has_topic topicts (all_lines cs) st ≡ set_all cs st
    unfolding lines_of
    loaded_all [] st h = refl
    loaded_all (c ∷ cs) st h =
        let found = restore_channel strip find has_topic topicts c.name c.modes st.1 in
        load_all-append (lines_of c) (all_lines cs) st
        ∙ ap
            (λ r. load_all strip find has_topic topicts (all_lines cs) (
              load_all strip find has_topic topicts (topic_lines c.topic ++ map ban_line c.bans) r))
            (load-chan strip find has_topic topicts keeps c st (ground arith) (ground arith))
        ∙ ap (load_all strip find has_topic topicts (all_lines cs))
            (loaded_rest c found (ground arith) (ground arith))
        ∙ loaded_all cs (set_rest c found) (ground arith)

    -- If strip() leaves words without control characters as they are, and if each name, modes, setter,
    -- topic, ban type and mask is a text that its place in a line can hold, each line fits in the buffer,
    -- and each time in an unsigned long, then LOADCHANMODES reads the file that SAVECHANMODES wrote to
    -- the end and calls atheme exactly as if the channels were set from the records: in order, each
    -- channel is joined and, if it is then there, gets its modes, its topic, unless it has one, and its
    -- bans.
    pub load-save :
        (cs : List Channel)
        → are_writable cs ≡ true
        → os_cmd_loadchanmodes strip find has_topic topicts (os_cmd_savechanmodes true cs).0
          ≡ some (
              (set_all cs (none, log_load ∷ wallops_restore ∷ [])).1
              ++ (restored ∷ remember_restart ∷ []))
    unfolding os_cmd_loadchanmodes os_cmd_savechanmodes
    load-save cs h =
        let start : Option ℕ × List Event = (none, log_load ∷ wallops_restore ∷ []) in
        let read =
          load_lines-written strip find has_topic topicts (suc (length (written (all_lines cs))))
            (all_lines cs) start (are_lines-all cs h) (omega (arith, length-written (all_lines cs)))
          ∙ ap some (loaded_all cs start h) in
        rw read refl
