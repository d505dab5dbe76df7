-- ===== src/Badwords/Flags.antt =====
-- The two flags of a channel, SET BLOCKBADWORDS and SET BLOCKBADWORDSOPS.
use atheme_contrib_modules.Badwords.Channels.{run_on-find_any}
use atheme_contrib_modules.Services.Registry.{Casemap}
use mathlib.Core.Option.{none}
use atheme_contrib_modules.Prelude.{
  Option, Bool, ◌≡◌, some, if◌then◌else◌, arith, none, true, refl, false, List,
}
use atheme_contrib_modules.Badwords.{
  Source, set_flag, Mychan, cs_set_cmd_blockbadwords, cs_set_cmd_blockbadwordsops, mychan_find,
  run_on, block_key, block_ops_key,
}
use atheme_contrib_modules.Services.Text.{Text, strcasecmp_eq, codes, strcasecmp_eq_refl}
use atheme_contrib_modules.Services.Metadata.{Metadata, is_some}

module _ {M : Type 0} (md : Metadata M) where
  -- Whether the flag under `key` is set.
  abbrev pub is_set : Text → Mychan M → Bool
  is_set key mc = is_some (md.metadata_find key mc.meta)

  -- What SET makes of a flag: ON and OFF, in any case, by a source with the right to.
  abbrev pub requested : Source → Option Text → Bool → Bool
  requested si none old = old
  requested si (some value) old =
      if si.ca_set
      then if strcasecmp_eq (codes "ON") value
        then true
        else if strcasecmp_eq (codes "OFF") value
        then false
        else old
      else old

  set_flag-is_set :
      (key flag : Text) (si : Source) (value : Option Text) (mc : Mychan M)
      → is_set key (set_flag md key flag si value mc).0 ≡ requested si value (is_set key mc)
  unfolding set_flag
  set_flag-is_set key flag si none mc = refl
  set_flag-is_set key flag si (some v) mc = ground (
    arith,
    md.find-add key (codes "on") key mc.meta,
    md.find-delete key key mc.meta,
    strcasecmp_eq_refl key,
  )

  -- The other flag, the words and the name stay.
  set_flag_keeps :
      (key flag probe : Text) (si : Source) (value : Option Text) (mc : Mychan M)
      → strcasecmp_eq key probe ≡ false
      → let after = (set_flag md key flag si value mc).0 in
        (is_set probe after ≡ is_set probe mc)
        × (after.badwords ≡ mc.badwords)
        × (after.name ≡ mc.name)
  unfolding set_flag
  set_flag_keeps key flag probe si none mc d = (refl, refl, refl)
  set_flag_keeps key flag probe si (some v) mc d =
      ground (arith, md.find-add key (codes "on") probe mc.meta, md.find-delete key probe mc.meta)

  -- What one command of the two does to the channels.
  abbrev pub SetsOnly :
      Casemap
      → Source
      → Option Text
      → Text
      → Text
      → Text
      → Mychan M
      → List (Mychan M)
      → List (Mychan M)
      → Text
      → Type 0
  SetsOnly c si value key key' channel mc mclist after elsewhere =
      (mc' : Mychan M) × (mychan_find c elsewhere after
        ≡ (if c.same channel elsewhere then some mc' else mychan_find c elsewhere mclist))
      × (is_set key mc' ≡ requested si value (is_set key mc))
      × (is_set key' mc' ≡ is_set key' mc)
      × (mc'.badwords ≡ mc.badwords)

  set_flag-SetsOnly :
      (c : Casemap) (si : Source) (value : Option Text) (key key' flag channel elsewhere : Text)
      (mc : Mychan M) (mclist : List (Mychan M))
      → strcasecmp_eq key key' ≡ false
      → mychan_find c channel mclist ≡ some mc
      → SetsOnly c si value key key' channel mc mclist
          (run_on c channel (set_flag md key flag si value) mclist).0
          elsewhere
  set_flag-SetsOnly c si value key key' flag channel elsewhere mc mclist d e =
      let kept = λ (m : Mychan M). set_flag_keeps key flag key' si value m d in
      (
        (set_flag md key flag si value mc).0,
        run_on-find_any c channel elsewhere (set_flag md key flag si value) mclist mc
            (λ m. (kept m).2) e,
        set_flag-is_set key flag si value mc,
        (kept mc).0,
        (kept mc).1,
      )

  -- Each of the two SET commands sets its own flag of the channel that it names as it is asked to (ON
  -- or OFF, in any case, by a source with the right to, and else not at all), and leaves the other
  -- flag, the words and all other channels as they are.
  pub set_commands-SetsOnly :
      (c : Casemap) (si : Source) (value : Option Text) (channel elsewhere : Text) (mc : Mychan M)
      (mclist : List (Mychan M))
      → mychan_find c channel mclist ≡ some mc
      → SetsOnly c si value block_key block_ops_key channel mc mclist
          (cs_set_cmd_blockbadwords md c si channel value mclist).0
          elsewhere
        × SetsOnly c si value block_ops_key block_key channel mc mclist
            (cs_set_cmd_blockbadwordsops md c si channel value mclist).0
            elsewhere
  unfolding cs_set_cmd_blockbadwords cs_set_cmd_blockbadwordsops strcasecmp_eq
  set_commands-SetsOnly c si value channel elsewhere mc mclist e = (
    set_flag-SetsOnly c si value block_key block_ops_key (codes "BLOCKBADWORDS") channel elsewhere
        mc mclist refl e,
    set_flag-SetsOnly c si value block_ops_key block_key (codes "BLOCKBADWORDSOPS") channel
        elsewhere mc mclist refl e,
  )
