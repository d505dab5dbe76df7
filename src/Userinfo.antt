-- ===== src/Userinfo.antt =====
-- src/cs_userinfo.c: a line that ChanServ says when a user with access joins. It is metadata of the entry
-- in the access list; an entry is a number, and the state is the metadata of each.
pub mod Lines
mod Tests
use atheme_contrib_modules.Services.Metadata.{Metadata}
use atheme_contrib_modules.Services.Text.{Text, codes}
use atheme_contrib_modules.Services.{Fault, needmoreparams, noprivs}
use atheme_contrib_modules.Prelude.{
  ℕ, Bool, Option, List, if◌then◌else◌, ◌∷◌, [], none, ◌==◌, not, some, ◌&&◌, ◌++◌,
}

-- An entry of the access list: the account it is for, if it is for one, and what the code tests of its
-- level.
pub record Access : Type 0 where
  pub at : ℕ
  pub account : Option Text
  pub akick : Bool
  -- `level & ~allow_flags(mc, restrictflags)`
  pub above : Bool

pub data Event : Type 0 where
  command_fail : Fault → Event
  not_registered : Text → Event
  is_closed : Event
  table_head table_foot end_of_list log_list : Event
  info_line : Text → Text → Event
  has_no_access not_authorized_for deleted added log_del : Text → Event
  log_add : Text → Text → Event
  msg : Text → Text → Event

-- What the command reads of the channel and of the source: private:close:closer, PRIV_CHAN_AUSPEX,
-- CA_ACLVIEW and CA_FLAGS among restrictflags, and the access list.
pub record Channel : Type 0 where
  pub closed : Bool
  pub auspex : Bool
  pub aclview : Bool
  pub flags : Bool
  pub chanacs : List Access

-- A user who joins: whether the server has finished its burst, the nickname, and the account.
pub record Joining : Type 0 where
  pub eob : Bool
  pub nick : Text
  pub account : Option Text

abbrev pub userinfo : Text
userinfo = codes "userinfo"

-- `mychan_find` and `myuser_find_ext` give the channel and the name of the account, and
-- `chanacs_find_literal` the entry of an account.
module _ {M : Type 0} (d : Metadata M) (mychan_find : Text → Option Channel)
    (myuser_find_ext : Text → Option Text)
    (chanacs_find_literal : Channel → Text → Option Access) where
  open d use {metadata_find, metadata_add, metadata_delete}

  abbrev pub set_info : ℕ → (M → M) → (ℕ → M) → ℕ → M
  set_info at f infos i = if i == at then f (infos i) else infos i

  list_infos : (ℕ → M) → List Access → List Event
  list_infos infos [] = []
  list_infos infos (ca ∷ cas) =
      let rest = list_infos infos cas in
      elim ca.account [
        | none ↦ rest
        | some name ↦ elim (metadata_find userinfo (infos ca.at)) [
          | none ↦ rest
          | some value ↦ info_line name value ∷ rest
        ]
      ]

  cmd_list : Channel → (ℕ → M) → List Event
  unfolding list_infos
  cmd_list mc infos =
      if not mc.aclview
      then command_fail noprivs ∷ []
      else table_head ∷ list_infos infos mc.chanacs ++ (table_foot ∷ end_of_list ∷ log_list ∷ [])

  -- With the target and, if it is given, the line.
  cmd_set : Channel → Text → Option Text → (ℕ → M) → (ℕ → M) × List Event
  cmd_set mc target info infos =
      if not mc.flags then (infos, command_fail noprivs ∷ []) else elim (myuser_find_ext target) [
        | none ↦ (infos, not_registered target ∷ [])
        | some mu ↦ elim (chanacs_find_literal mc mu) [
          | none ↦ (infos, has_no_access mu ∷ [])
          | some ca ↦
              if ca.akick
              then (infos, has_no_access mu ∷ [])
              else if ca.above
              then (infos, not_authorized_for mu ∷ [])
              else elim info [
                | none ↦
                    (set_info ca.at (metadata_delete userinfo) infos, deleted mu ∷ log_del mu ∷ [])
                | some value ↦ (
                  set_info ca.at (metadata_add userinfo value) infos,
                  added mu ∷ log_add mu value ∷ [],
                )
              ]
        ]
      ]

  -- The parameters that are given, in order.
  pub cs_cmd_userinfo : List Text → (ℕ → M) → (ℕ → M) × List Event
  unfolding cmd_list cmd_set
  cs_cmd_userinfo [] infos = (infos, command_fail needmoreparams ∷ command_fail needmoreparams ∷ [])
  cs_cmd_userinfo (chan ∷ params) infos = elim (mychan_find chan) [
    | none ↦ (infos, not_registered chan ∷ [])
    | some mc ↦ if mc.closed && not mc.auspex then (infos, is_closed ∷ []) else elim params [
      | [] ↦ (infos, cmd_list mc infos)
      | target ∷ [] ↦ cmd_set mc target none infos
      | target ∷ info ∷ _ ↦ cmd_set mc target (some info) infos
    ]
  ]

  -- The join hook; `joined` is the channel, none if it is not registered.
  pub userinfo_check_join : Option Joining → Option Channel → (ℕ → M) → List Event
  userinfo_check_join none joined infos = []
  userinfo_check_join (some cu) none infos = []
  userinfo_check_join (some cu) (some mc) infos = if not cu.eob then [] else elim cu.account [
    | none ↦ []
    | some mu ↦ elim (chanacs_find_literal mc mu) [
      | none ↦ []
      | some ca ↦ if ca.akick then [] else elim (metadata_find userinfo (infos ca.at)) [
        | none ↦ []
        | some value ↦ msg cu.nick value ∷ []
      ]
    ]
  ]
