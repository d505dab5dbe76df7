-- ===== src/Badwords.antt =====
-- src/cs_badwords.c: the bad words of a registered channel, and what a message that holds one leads
-- to. The state is the list of registered channels, each with its metadata and its list of words;
-- a channel that has no list yet is one with an empty list, since badwords_list_of() makes one.
pub mod Enforce
pub mod Lists
pub mod Channels
pub mod Commands
pub mod Flags
pub mod Storage
mod Tests
use atheme_contrib_modules.Services.Database.{Field, Backend, Row, ◌>>=◌}
use atheme_contrib_modules.Services.Keyed.{any, find, delete}
use atheme_contrib_modules.Services.Registry.{Casemap, is_named, listed, remove}
use atheme_contrib_modules.Services.Metadata.{Metadata, is_some}
use atheme_contrib_modules.Services.{
  Fault, needmoreparams, noprivs, nosuch_target, badparams, nochange,
}
use atheme_contrib_modules.Services.Text.{Text, codes, strlcat, strcasecmp_eq}
use atheme_contrib_modules.Prelude.{
  Bool, Option, ℕ, List, if◌then◌else◌, ◌∷◌, [], some, ◌&&◌, ◌||◌, not, none, map, ◌++◌,
}
use Prim.Native.Nat.{ℕ}

pub record Badword : Type 0 where
  pub badword : Text
  pub add_ts : ℕ
  pub creator : Text
  pub channel : Text
  pub action : Text

-- What the module reads and writes of a mychan_t.
pub record Mychan (M : Type 0) : Type 0 where
  pub name : Text
  pub meta : M
  pub badwords : List Badword

pub data Event : Type 0 where
  command_fail : Fault → Event
  already_entered added deleted not_found : Text → Event
  log_add : Text → Text → Text → Event
  log_del : Text → Text → Event
  list_line : Badword → Event
  end_of_list log_list : Event
  flag_set flag_removed log_flag_on log_flag_off : Text → Text → Event
  modestack_mode_param chanban_add : ℕ → Text → Event
  kick notice : Event

-- What the message hook reads of a chanuser_t: whether one of the flags CSTATUS_OP, CSTATUS_PROTECT
-- and CSTATUS_OWNER is among its modes.
pub record Chanuser : Type 0 where
  pub is_op : Bool

pub record Message : Type 0 where
  pub cu : Option Chanuser
  pub vhost : Text
  pub msg : Option Text

abbrev block_key : Text
block_key = codes "blockbadwords"

abbrev block_ops_key : Text
block_ops_key = codes "blockbadwordsops"

-- "*!*@" and the host, in a buffer of BUFSIZE bytes.
hostmask : ℕ → Text → Text
hostmask bufsize vhost = strlcat (strlcat [] (codes "*!*@") bufsize) vhost bufsize

-- The chain of tests on the action of a word that matches; `none` goes on to the next word.
pub punish : ℕ → Text → Text → Option (List Event)
unfolding hostmask
punish bufsize vhost action =
    let mask = hostmask bufsize vhost in
    if strcasecmp_eq (codes "KICKBAN") action
    then some (modestack_mode_param b'b' mask ∷ chanban_add b'b' mask ∷ kick ∷ [])
    else if strcasecmp_eq (codes "KICK") action
    then some (kick ∷ [])
    else if strcasecmp_eq (codes "WARN") action
    then some (notice ∷ [])
    else if strcasecmp_eq (codes "QUIET") action
    then some (modestack_mode_param b'q' mask ∷ chanban_add b'q' mask ∷ [])
    else if strcasecmp_eq (codes "BAN") action
    then some (modestack_mode_param b'b' mask ∷ chanban_add b'b' mask ∷ [])
    else none

module _ {M : Type 0} (md : Metadata M) where
  open md use {metadata_find, metadata_add, metadata_delete}

  abbrev exempt : Mychan M → Chanuser → Bool
  exempt mc cu = is_some (metadata_find block_ops_key mc.meta) && cu.is_op

  -- The loop over the words. `glob mask s` is `!match(mask, s)`.
  enforce :
      (Text → Text → Bool)
      → ℕ
      → Mychan M
      → Option Chanuser
      → Text
      → Text
      → List Badword
      → List Event
  unfolding punish
  enforce glob bufsize mc cu vhost msg [] = []
  enforce glob bufsize mc none vhost msg (bw ∷ l) = []
  enforce glob bufsize mc (some cu) vhost msg (bw ∷ l) =
      let rest = enforce glob bufsize mc (some cu) vhost msg l in
      if exempt mc cu
      then []
      else if glob bw.badword msg
      then elim (punish bufsize vhost bw.action) [ some events ↦ events | none ↦ rest ]
      else rest

  pub on_channel_message : (Text → Text → Bool) → ℕ → Option (Mychan M) → Message → List Event
  unfolding enforce
  on_channel_message glob bufsize none message = []
  on_channel_message glob bufsize (some mc) message =
      if is_some (metadata_find block_key mc.meta)
      then elim message.msg [
        | none ↦ []
        | some msg ↦ enforce glob bufsize mc message.cu message.vhost msg mc.badwords
      ]
      else []

-- The tests on the action that ADD accepts; `quiets` is whether the ircd has a quiet mode.
pub valid_action : Bool → Text → Bool
valid_action quiets action =
    strcasecmp_eq (codes "KICK") action
    || strcasecmp_eq (codes "KICKBAN") action
    || strcasecmp_eq (codes "WARN") action
    || strcasecmp_eq (codes "BAN") action
    || (strcasecmp_eq (codes "QUIET") action && quiets)

-- What the commands read of their source: get_source_name(), and whether
-- chanacs_source_has_flag() grants it CA_SET and CA_ACLVIEW on the channel.
pub record Source : Type 0 where
  pub name : Text
  pub ca_set : Bool
  pub ca_aclview : Bool

pub data Verb : Type 0 where
  add del list other : Verb

pub verb_of : Text → Verb
verb_of s =
    if strcasecmp_eq (codes "ADD") s
    then add
    else if strcasecmp_eq (codes "DEL") s
    then del
    else if strcasecmp_eq (codes "LIST") s
    then list
    else other

abbrev pub word_of : Badword → Text
word_of bw = bw.badword

abbrev pub entry_of : Source → ℕ → Text → Text → Text → Badword
entry_of si now chan word action = record {
  badword = word;
  add_ts = now;
  creator = si.name;
  channel = chan;
  action = action;
}

abbrev more_params : List Event
more_params = command_fail needmoreparams ∷ command_fail needmoreparams ∷ []

module _ (c : Casemap) where
  -- The body of ADD once both parameters are there; `chan` is mc->name and `channel` parv[0].
  pub cmd_add :
      Source → ℕ → Bool → Text → Text → Text → Text → List Badword → List Badword × List Event
  unfolding valid_action any
  cmd_add si now quiets chan channel word action l =
      if not si.ca_set
      then (l, command_fail noprivs ∷ [])
      else if valid_action quiets action
      then if listed c word_of word l then (l, already_entered word ∷ []) else (
        l ++ entry_of si now chan word action ∷ [],
        added word ∷ log_add channel word action ∷ [],
      )
      else (l, command_fail badparams ∷ [])

  pub cmd_del : Source → Text → Text → List Badword → List Badword × List Event
  unfolding find delete
  cmd_del si chan word l =
      if not si.ca_set
      then (l, command_fail noprivs ∷ [])
      else elim (find (is_named c word_of word) l) [
        | some bw ↦ (remove c word_of word l, log_del chan bw.badword ∷ deleted bw.badword ∷ [])
        | none ↦ (l, not_found word ∷ [])
      ]

  cmd_list : Source → List Badword → List Badword × List Event
  cmd_list si l =
      if not si.ca_aclview
      then (l, command_fail noprivs ∷ [])
      else (l, map list_line l ++ end_of_list ∷ log_list ∷ [])

  pub perform :
      Verb
      → Source
      → ℕ
      → Bool
      → Text
      → Text
      → Option Text
      → Option Text
      → List Badword
      → List Badword × List Event
  unfolding cmd_add cmd_del cmd_list
  perform add si now quiets chan channel (some word) (some action) l =
      cmd_add si now quiets chan channel word action l
  perform add si now quiets chan channel _ _ l = (l, more_params)
  perform del si now quiets chan channel (some word) action l = cmd_del si chan word l
  perform del si now quiets chan channel none action l = (l, more_params)
  perform list si now quiets chan channel word action l = cmd_list si l
  perform other si now quiets chan channel word action l = (l, more_params)

  module _ {M : Type 0} where
    abbrev pub name_of : Mychan M → Text
    name_of mc = mc.name

    -- mychan_find(), and the command's writes through the pointer that it returns.
    pub mychan_find : Text → List (Mychan M) → Option (Mychan M)
    unfolding find
    mychan_find channel mclist = find (is_named c name_of channel) mclist

    pub replace : Text → (Mychan M → Mychan M) → List (Mychan M) → List (Mychan M)
    replace channel f [] = []
    replace channel f (mc ∷ mclist) =
        if c.same mc.name channel then f mc ∷ mclist else mc ∷ replace channel f mclist

    pub run_on :
        Text → (Mychan M → Mychan M × List Event) → List (Mychan M) → List (Mychan M) × List Event
    unfolding mychan_find replace
    run_on channel run mclist = elim (mychan_find channel mclist) [
      | none ↦ (mclist, command_fail nosuch_target ∷ [])
      | some mc ↦ (replace channel (λ m. (run m).0) mclist, (run mc).1)
    ]

    pub on_list :
        (Text → List Badword → List Badword × List Event) → Mychan M → Mychan M × List Event
    on_list run mc =
        let (l, events) = run mc.name mc.badwords in (record mc { badwords = l }, events)

    -- The parameters are parv[0] to parv[3]; `now` is CURRTIME.
    pub cs_cmd_badwords :
        Source
        → ℕ
        → Bool
        → Option Text
        → Option Text
        → Option Text
        → Option Text
        → List (Mychan M)
        → List (Mychan M) × List Event
    unfolding verb_of perform run_on on_list
    cs_cmd_badwords si now quiets (some channel) (some command) word action mclist =
        run_on channel
          (on_list λ chan l. perform (verb_of command) si now quiets chan channel word action l)
          mclist
    cs_cmd_badwords si now quiets _ _ word action mclist = (mclist, more_params)

module _ {M : Type 0} (md : Metadata M) where
  open md use {metadata_find, metadata_add, metadata_delete}

  -- The part that the two SET commands share, with the key and the name of their flag.
  pub set_flag : Text → Text → Source → Option Text → Mychan M → Mychan M × List Event
  set_flag key flag si none mc = (mc, command_fail needmoreparams ∷ [])
  set_flag key flag si (some value) mc =
      let found = is_some (metadata_find key mc.meta) in
      if not si.ca_set
      then (mc, command_fail noprivs ∷ [])
      else if strcasecmp_eq (codes "ON") value
      then if found then (mc, command_fail nochange ∷ []) else (
        record mc { meta = metadata_add key (codes "on") mc.meta },
        log_flag_on flag mc.name ∷ flag_set flag mc.name ∷ [],
      )
      else if strcasecmp_eq (codes "OFF") value
      then if found
        then (
          record mc { meta = metadata_delete key mc.meta },
          log_flag_off flag mc.name ∷ flag_removed flag mc.name ∷ [],
        )
        else (mc, command_fail nochange ∷ [])
      else (mc, command_fail badparams ∷ [])

  pub cs_set_cmd_blockbadwords :
      Casemap → Source → Text → Option Text → List (Mychan M) → List (Mychan M) × List Event
  unfolding set_flag run_on
  cs_set_cmd_blockbadwords c si channel value mclist =
      run_on c channel (set_flag block_key (codes "BLOCKBADWORDS") si value) mclist

  pub cs_set_cmd_blockbadwordsops :
      Casemap → Source → Text → Option Text → List (Mychan M) → List (Mychan M) × List Event
  unfolding set_flag run_on
  cs_set_cmd_blockbadwordsops c si channel value mclist =
      run_on c channel (set_flag block_ops_key (codes "BLOCKBADWORDSOPS") si value) mclist

module _ (b : Backend) where
  open b use {Line, store, sread_word, sread_time}

  write_row : Badword → Row Line
  write_row bw = (
    codes "BW",
    store (
        Field.word bw.badword
        ∷ Field.time bw.add_ts
        ∷ Field.word bw.creator
        ∷ Field.word bw.channel
        ∷ Field.word bw.action
        ∷ []),
  )

  -- The outer loop is over mclist, the inner one over the words of a channel.
  pub write_badword_db : {M : Type 0} → List (Mychan M) → List (Row Line)
  unfolding write_row
  write_badword_db [] = []
  write_badword_db (mc ∷ mclist) = map write_row mc.badwords ++ write_badword_db mclist

  -- Every channel of that name gets an entry.
  add_badword : {M : Type 0} → Casemap → Badword → List (Mychan M) → List (Mychan M)
  add_badword c bw = map λ mc.
      if c.same mc.name bw.channel then record mc { badwords = mc.badwords ++ bw ∷ [] } else mc

  pub db_h_bw : {M : Type 0} → Casemap → Line → List (Mychan M) → Option (List (Mychan M))
  unfolding add_badword
  db_h_bw c line mclist = do
    (badword, line₁) ← sread_word line
    (add_ts, line₂) ← sread_time line₁
    (creator, line₃) ← sread_word line₂
    (channel, line₄) ← sread_word line₃
    (action, line₅) ← sread_word line₄
    let bw : Badword = record {
      badword = badword;
      add_ts = add_ts;
      creator = creator;
      channel = channel;
      action = action;
    }
    some (add_badword c bw mclist)
