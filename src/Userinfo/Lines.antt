-- ===== src/Userinfo/Lines.antt =====
-- What a change of the line shows when users join.
use atheme_contrib_modules.Userinfo.{
  Channel, Access, Joining, cs_cmd_userinfo, userinfo_check_join, Event, cmd_set, msg, set_info,
  userinfo,
}
use atheme_contrib_modules.Prelude.{
  Option, List, Bool, ℕ, not, [], some, ◌≡◌, ◌&&◌, true, arith, false, ◌∷◌, ==_iff, ◌∙◌, ◌==◌, ap,
  refl,
}
use atheme_contrib_modules.Services.Text.{Text, strcasecmp_eq_refl}
use atheme_contrib_modules.Services.Metadata.{Metadata}
use mathlib.Core.Option.{none}

module _ {M : Type 0} (d : Metadata M) (mychan_find : Text → Option Channel)
    (myuser_find_ext : Text → Option Text)
    (chanacs_find_literal : Channel → Text → Option Access) where
  abbrev pub says : Option Text → Joining → List Event
  says none cu = []
  says (some value) cu = msg cu.nick value ∷ []

  abbrev pub run : List Text → (ℕ → M) → (ℕ → M) × List Event
  run params infos = cs_cmd_userinfo d mychan_find myuser_find_ext chanacs_find_literal params infos

  abbrev pub joins : Joining → Channel → (ℕ → M) → List Event
  joins cu mc infos =
      userinfo_check_join d mychan_find myuser_find_ext chanacs_find_literal (some cu) (some mc)
        infos

  -- Whether the command gets as far as the change.
  abbrev pub may_change : Channel → Access → Bool
  may_change mc ca = not (mc.closed && not mc.auspex) && mc.flags && not ca.akick && not ca.above

  changed :
      {chan target mu : Text} {mc : Channel} {ca : Access} (infos : ℕ → M)
      → mychan_find chan ≡ some mc
      → myuser_find_ext target ≡ some mu
      → chanacs_find_literal mc mu ≡ some ca
      → may_change mc ca ≡ true
      → (info : Text)
      → ((run (chan ∷ target ∷ info ∷ []) infos).0
          ≡ set_info d mychan_find myuser_find_ext chanacs_find_literal ca.at
              (d.metadata_add userinfo info)
              infos)
        × ((run (chan ∷ target ∷ []) infos).0
            ≡ set_info d mychan_find myuser_find_ext chanacs_find_literal ca.at
                (d.metadata_delete userinfo)
                infos)
  unfolding cs_cmd_userinfo cmd_set
  changed infos h k m ok info = ground (arith, h, k, m, ok)

  joins-line :
      {mu : Text} {mc : Channel} {ca : Access} (cu : Joining) (infos : ℕ → M)
      → chanacs_find_literal mc mu ≡ some ca
      → cu.eob ≡ true
      → cu.account ≡ some mu
      → ca.akick ≡ false
      → joins cu mc infos ≡ says (d.metadata_find userinfo (infos ca.at)) cu
  unfolding userinfo_check_join
  joins-line cu infos h e a k = ground (arith, h, e, a, k)

  joins-entry :
      {mv : Text} {mc : Channel} {cb : Access} (other : Joining) (infos changes : ℕ → M)
      → other.account ≡ some mv
      → chanacs_find_literal mc mv ≡ some cb
      → changes cb.at ≡ infos cb.at
      → joins other mc changes ≡ joins other mc infos
  unfolding userinfo_check_join
  joins-entry other infos changes a h e = ground (arith, a, h, e)

  info_at :
      (i : ℕ) (f : M → M) (infos : ℕ → M)
      → set_info d mychan_find myuser_find_ext chanacs_find_literal i f infos i ≡ f (infos i)
  info_at i f infos = rw ((==_iff i i).1 refl) refl

  info_beside :
      (i j : ℕ) (f : M → M) (infos : ℕ → M)
      → (j == i) ≡ false
      → set_info d mychan_find myuser_find_ext chanacs_find_literal i f infos j ≡ infos j
  info_beside i j f infos h = rw h refl

  found_added :
      (info : Text) (m : M) → d.metadata_find userinfo (d.metadata_add userinfo info m) ≡ some info
  found_added info m = d.find-add userinfo info userinfo m ∙ rw (strcasecmp_eq_refl userinfo) refl

  found_deleted : (m : M) → d.metadata_find userinfo (d.metadata_delete userinfo m) ≡ none
  found_deleted m = d.find-delete userinfo userinfo m ∙ rw (strcasecmp_eq_refl userinfo) refl

  -- If the entry of an account may be changed, then a user of that account who joins, on a server that has
  -- finished its burst, after the line was added is announced with that line, and after it was deleted
  -- with none; and for users whose entries are others both make no difference.
  pub add_delete-joins :
      {chan target info mu mv : Text} {mc : Channel} {ca cb : Access} (cu other : Joining)
      (infos : ℕ → M)
      → mychan_find chan ≡ some mc
      → myuser_find_ext target ≡ some mu
      → chanacs_find_literal mc mu ≡ some ca
      → may_change mc ca ≡ true
      → cu.eob ≡ true
      → cu.account ≡ some mu
      → other.account ≡ some mv
      → chanacs_find_literal mc mv ≡ some cb
      → (cb.at == ca.at) ≡ false
      → let added = (run (chan ∷ target ∷ info ∷ []) infos).0 in
        let gone = (run (chan ∷ target ∷ []) added).0 in
        (joins cu mc added ≡ msg cu.nick info ∷ [])
        × (joins cu mc gone ≡ [])
        × (joins other mc added ≡ joins other mc infos)
        × (joins other mc gone ≡ joins other mc infos)
  add_delete-joins {chan} {target} {info} {ca = ca} {cb = cb} cu other infos h k m ok e a b n
        apart =
      let add = (changed infos h k m ok info).0 in
      let added = (run (chan ∷ target ∷ info ∷ []) infos).0 in
      let del = (changed added h k m ok info).1 in
      let gone = (run (chan ∷ target ∷ []) added).0 in
      let kept : ca.akick ≡ false = ground (arith, ok) in
      let same : added cb.at ≡ infos cb.at =
        ap (λ f. f cb.at) add
        ∙ info_beside ca.at cb.at (d.metadata_add userinfo info) infos apart in
      let line =
        ap (λ f. d.metadata_find userinfo (f ca.at)) add
        ∙ ap (d.metadata_find userinfo) (info_at ca.at (d.metadata_add userinfo info) infos)
        ∙ found_added info (infos ca.at) in
      let none_left =
        ap (λ f. d.metadata_find userinfo (f ca.at)) del
        ∙ ap (d.metadata_find userinfo) (info_at ca.at (d.metadata_delete userinfo) added)
        ∙ found_deleted (added ca.at) in
      (
        joins-line cu added m e a kept ∙ ap (λ v. says v cu) line,
        joins-line cu gone m e a kept ∙ ap (λ v. says v cu) none_left,
        joins-entry other infos added b n same,
        joins-entry other infos gone b n (
            ap (λ f. f cb.at) del
            ∙ info_beside ca.at cb.at (d.metadata_delete userinfo) added apart
            ∙ same),
      )
