-- ===== src/Fsend/Inboxes.antt =====
-- The bounds that FSEND keeps.
use mathlib.Core.Option.{none}
use mathlib.Core.Path.{subst}
use atheme_contrib_modules.Prelude.{
  Bool, Option, ℕ, ◌≡◌, false, length, ◌≤◌, ◌+◌, arith, leb, Bool-cases, inl, ◌==◌, length-append,
  sym, inr, ==_iff, ◌∷◌, [], Option-cases, some, none, ltb,
}
use atheme_contrib_modules.Services.Text.{Text}
use atheme_contrib_modules.Fsend.{
  Limits, deliver, Source, Myuser, refresh, Memo, change, charge, receive, memo_of, send,
  ms_cmd_fsend,
}

module _ (l : Limits) (same : Text → Text → Bool) (myuser_find_ext : Text → Option ℕ)
    (user_find_named : Text → Option ℕ) where
  -- The bounds on one account.
  abbrev pub IsBounded : Myuser → Type 0
  IsBounded mu = (length mu.memos ≤ l.mdlimit) × (mu.memo_ratelimit_num ≤ l.max_num + 1)

  refresh-IsBounded : (now : ℕ) (mu : Myuser) → IsBounded mu → IsBounded (refresh l now mu)
  refresh-IsBounded now mu h = ground (arith, h)

  receive-IsBounded :
      (memo : Memo) (mu : Myuser)
      → IsBounded mu
      → leb l.mdlimit (length mu.memos) ≡ false
      → IsBounded (receive memo mu)
  receive-IsBounded memo mu h k = ground (arith, h, k, length-append mu.memos (memo ∷ []))

  change-IsBounded :
      (j i : ℕ) (f : Myuser → Myuser) (accounts : ℕ → Myuser)
      → IsBounded (accounts i)
      → IsBounded (f (accounts j))
      → IsBounded (change j f accounts i)
  change-IsBounded j i f accounts h k = elim (Bool-cases (i == j)) [
    | inl e ↦ rw e (subst (λ n. IsBounded (f (accounts n))) (sym ((==_iff i j).0 e)) k)
    | inr e ↦ rw e h
  ]

  deliver-IsBounded :
      (si : Source) (now smu tmu : ℕ) (target m : Text) (accounts : ℕ → Myuser)
      → ((i : ℕ) → IsBounded (accounts i))
      → (accounts smu).memo_ratelimit_num ≤ l.max_num
      → (i : ℕ)
      → IsBounded
          ((deliver l same myuser_find_ext user_find_named si now smu tmu target m accounts).0 i)
  unfolding deliver
  deliver-IsBounded si now smu tmu target m accounts h k i =
      let charged = change smu (charge now) accounts in
      let ok : (n : ℕ) → IsBounded (charged n) =
        λ n. change-IsBounded smu n (charge now) accounts (h n) ((h smu).0, omega (arith, k)) in
      elim (Bool-cases (leb l.mdlimit (length (charged tmu).memos))) [
        | inl full ↦ rw full (ok i)
        | inr room ↦ rw room (
            change-IsBounded tmu i (receive (memo_of l now (charged smu).name m)) charged (ok i)
              (receive-IsBounded (memo_of l now (charged smu).name m) (charged tmu) (ok tmu) room))
      ]

  send-IsBounded :
      (si : Source) (now smu : ℕ) (target m : Text) (accounts : ℕ → Myuser)
      → si.flood ≡ false
      → ((i : ℕ) → IsBounded (accounts i))
      → (i : ℕ)
      → IsBounded ((send l same myuser_find_ext user_find_named si now smu target m accounts).0 i)
  unfolding send
  send-IsBounded si now smu target m accounts f h i =
      elim (Bool-cases (ltb l.max_num (accounts smu).memo_ratelimit_num)) [
        | inl e ↦ rw e (rw f (h i))
        | inr e ↦ elim (Option-cases (myuser_find_ext target)) [
          | inl e' ↦ ground (arith, e', h i)
          | inr (tmu, e') ↦
              let delivered =
                deliver-IsBounded si now smu tmu target m accounts h (ground (arith, e)) i in
              ground (arith, e, e', f, h i, delivered)
        ]
      ]

  -- If no inbox holds more memos than the limit, and no account is charged with more memos than one above
  -- the limit of the rate, then that is so after any FSEND of a source without PRIV_FLOOD.
  pub ms_cmd_fsend-IsBounded :
      (si : Source) (now : ℕ) (target m : Option Text) (accounts : ℕ → Myuser)
      → si.flood ≡ false
      → ((i : ℕ) → IsBounded (accounts i))
      → (i : ℕ)
      → IsBounded
          ((ms_cmd_fsend l same myuser_find_ext user_find_named si now target m accounts).0 i)
  unfolding ms_cmd_fsend
  ms_cmd_fsend-IsBounded si now none m accounts f h i = h i
  ms_cmd_fsend-IsBounded si now (some target) none accounts f h i = h i
  ms_cmd_fsend-IsBounded si now (some target) (some m) accounts f h i = elim (Option-cases si.smu) [
    | inl e ↦ rw e (h i)
    | inr (smu, e) ↦ rw e (
        send-IsBounded si now smu target m (change smu (refresh l now) accounts) f
          (λ n.
            change-IsBounded smu n (refresh l now) accounts (h n)
              (refresh-IsBounded now (accounts smu) (h smu)))
          i)
  ]
