-- ===== src/Fsend.antt =====
-- src/ms_fsend.c: FSEND, which sends a memo to an account that may ignore the sender. The state is that
-- of the accounts, by number; the sender may be the target.
pub mod Inboxes
mod Tests
use atheme_contrib_modules.Services.Text.{Text, strlcat, codes}
use atheme_contrib_modules.Prelude.{
  ℕ, Option, ◌++◌, Bool, if◌then◌else◌, ◌+◌, take, ◌∷◌, List, ◌==◌, ltb, ◌-◌, [], length, leb, ◌&&◌,
  none, not, some, get_or,
}

pub record Memo : Type 0 where
  pub sent : ℕ
  pub status : ℕ
  pub sender : Text
  pub text : Text

pub record Myuser : Type 0 where
  pub name : Text
  pub email : Text
  pub emailmemos : Bool
  pub memos : List Memo
  pub memoct_new : ℕ
  pub memo_ratelimit_num : ℕ
  pub memo_ratelimit_time : ℕ

-- MEMO_MAX_TIME, MEMO_MAX_NUM, COMPAT_MEMOLEN, me.mdlimit and the sizes of the two texts in a memo.
pub record Limits : Type 0 where
  pub max_time : ℕ
  pub max_num : ℕ
  pub memolen : ℕ
  pub mdlimit : ℕ
  pub sender_size : ℕ
  pub text_size : ℕ

-- What the command reads of a sourceinfo_t: the account, the nickname of the user, if the command comes
-- from one, and whether it has PRIV_FLOOD.
pub record Source : Type 0 where
  pub smu : Option ℕ
  pub su : Option Text
  pub flood : Bool

pub data Event : Type 0 where
  usage not_logged_in too_many too_long invalid_characters channel_memos group_memos : Event
  not_registered inbox_full log_full log_fsend currently_online successfully_sent : Text → Event
  sendemail : Text → Text → Event
  new_memo : ℕ → Text → ℕ → Event
  new_memo_nick : ℕ → Text → Text → ℕ → Event
  to_read : ℕ → ℕ → Event

abbrev pub change : ℕ → (Myuser → Myuser) → (ℕ → Myuser) → ℕ → Myuser
change i f accounts j = if j == i then f (accounts j) else accounts j

-- The rate limit of the sender: begun anew after a while, and counted.
abbrev pub refresh : Limits → ℕ → Myuser → Myuser
refresh l now mu =
    if ltb l.max_time (now - mu.memo_ratelimit_time)
    then record mu { memo_ratelimit_num = 0 }
    else mu

abbrev pub charge : ℕ → Myuser → Myuser
charge now mu = record mu {
  memo_ratelimit_num = mu.memo_ratelimit_num + 1;
  memo_ratelimit_time = now;
}

unfoldable pub memo_of : Limits → ℕ → Text → Text → Memo
unfolding strlcat
memo_of l now sender m = record {
  sent = now;
  status = 0;
  sender = take (l.sender_size - 1) sender;
  text = strlcat (take (l.text_size - 1) (codes "[FORCE] ")) m l.text_size;
}

abbrev pub receive : Memo → Myuser → Myuser
receive memo mu = record mu { memos = mu.memos ++ memo ∷ []; memoct_new = mu.memoct_new + 1 }

-- `same` is irccasecmp() for equality, `myuser_find_ext` gives an account, and `user_find_named` the account
-- of the user with that nickname, if there is such a user who is logged in.
module _ (l : Limits) (same : Text → Text → Bool) (myuser_find_ext : Text → Option ℕ)
    (user_find_named : Text → Option ℕ) where
  -- The replies to the two, with the accounts as they are after the memo was linked.
  replies : Source → ℕ → ℕ → Text → Memo → (ℕ → Myuser) → List Event
  replies si smu tmu target memo accounts =
      let count = length (accounts tmu).memos in
      let name = (accounts smu).name in
      (if (accounts tmu).emailmemos then sendemail (accounts tmu).email memo.text ∷ [] else [])
      ++ (elim (user_find_named target) [
        | none ↦ []
        | some mu ↦ if mu == tmu then currently_online target ∷ [] else []
      ])
      ++ (elim si.su [
        | none ↦ new_memo tmu name count ∷ []
        | some nick ↦
            if same nick name
            then new_memo tmu name count ∷ []
            else new_memo_nick tmu name nick count ∷ []
      ])
      ++ (to_read tmu count ∷ successfully_sent target ∷ [])

  unfoldable pub deliver :
      Source → ℕ → ℕ → ℕ → Text → Text → (ℕ → Myuser) → (ℕ → Myuser) × List Event
  unfolding replies memo_of
  deliver si now smu tmu target m accounts =
      let charged = change smu (charge now) accounts in
      if leb l.mdlimit (length (charged tmu).memos)
      then (charged, inbox_full target ∷ log_full (charged tmu).name ∷ [])
      else let memo = memo_of l now (charged smu).name m in
        let received = change tmu (receive memo) charged in
        (received, log_fsend (charged tmu).name ∷ replies si smu tmu target memo received)

  unfoldable pub send : Source → ℕ → ℕ → Text → Text → (ℕ → Myuser) → (ℕ → Myuser) × List Event
  unfolding deliver
  send si now smu target m accounts =
      if ltb l.max_num (accounts smu).memo_ratelimit_num && not si.flood
      then (accounts, too_many ∷ [])
      else if ltb l.memolen (length m)
      then (accounts, too_long ∷ [])
      else if get_or m 0 0 == 1
      then (accounts, invalid_characters ∷ [])
      else if get_or target 0 0 == 35
      then (accounts, channel_memos ∷ [])
      else if get_or target 0 0 == 33
      then (accounts, group_memos ∷ [])
      else elim (myuser_find_ext target) [
        | none ↦ (accounts, not_registered target ∷ [])
        | some tmu ↦ deliver si now smu tmu target m accounts
      ]

  unfoldable pub ms_cmd_fsend :
      Source → ℕ → Option Text → Option Text → (ℕ → Myuser) → (ℕ → Myuser) × List Event
  unfolding send
  ms_cmd_fsend si now (some target) (some m) accounts = elim si.smu [
    | none ↦ (accounts, not_logged_in ∷ [])
    | some smu ↦ send si now smu target m (change smu (refresh l now) accounts)
  ]
  ms_cmd_fsend si now _ _ accounts = (accounts, usage ∷ usage ∷ [])
