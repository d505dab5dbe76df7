-- ===== src/Badwords/Lists.antt =====
-- One list of bad words under the BADWORDS command.
use atheme_contrib_modules.Services.Text.{Text, strcmp_eq, strcmp_eq_refl}
use atheme_contrib_modules.Badwords.{
  Source, Badword, cmd_add, cmd_del, perform, entry_of, Verb, word_of, valid_action, cmd_list, list,
  add, del, other,
}
use atheme_contrib_modules.Prelude.{
  Bool, List, ℕ, ◌≡◌, false, ◌∷◌, Option, if◌then◌else◌, [], arith, some, not, Bool-cases, refl,
  inl, inr, none, true, ◌++◌,
}
use atheme_contrib_modules.Services.Keyed.{
  any, delete, any_of_find, any-append, find-some_of_any, delete_absent,
}
use atheme_contrib_modules.Services.Registry.{
  Casemap, IsUnique, remove, IsUnique-add, IsUnique-remove, is_named, listed,
}

-- What holds of the list of a channel: no word twice, and every entry has an action that the message
-- hook knows and names the channel that it stands in.
pub record IsSound (c : Casemap) (quiets : Bool) (chan : Text) (l : List Badword) : Type 0 where
  pub unique : IsUnique c word_of l
  pub known : any (λ bw. not (valid_action quiets bw.action)) l ≡ false
  pub placed : any (λ bw. not (strcmp_eq bw.channel chan)) l ≡ false

any-delete-false {ℓ} :
    {A : Type ℓ} (p q : A → Bool) (xs : List A) → any q xs ≡ false → any q (delete p xs) ≡ false
unfolding any delete
any-delete-false p q [] h = refl
any-delete-false p q (x ∷ xs) h = ground (arith, any-delete-false p q xs)

module _ (c : Casemap) (si : Source) (now : ℕ) (quiets : Bool) where
  pub cmd_add-IsSound :
      (chan channel word action : Text) (l : List Badword)
      → IsSound c quiets chan l
      → IsSound c quiets chan (cmd_add c si now quiets chan channel word action l).0
  unfolding cmd_add any
  cmd_add-IsSound chan channel word action l v =
      let e = entry_of si now chan word action in
      record {
        unique = ground (arith, IsUnique-add c word_of l e v.unique);
        known =
            ground
              (arith, v.known, any-append (λ bw. not (valid_action quiets bw.action)) l (e ∷ []));
        placed = ground (
          arith,
          v.placed,
          any-append (λ bw. not (strcmp_eq bw.channel chan)) l (e ∷ []),
          strcmp_eq_refl chan,
        );
      }

  pub cmd_del-remove :
      (chan word : Text) (l : List Badword)
      → (cmd_del c si chan word l).0 ≡ (if si.ca_set then remove c word_of word l else l)
  unfolding cmd_del
  cmd_del-remove chan word l = ground (
    arith,
    any_of_find (is_named c word_of word) l,
    find-some_of_any (is_named c word_of word) l,
    delete_absent (is_named c word_of word) l,
  )

  pub remove-IsSound :
      (chan word : Text) (l : List Badword)
      → IsSound c quiets chan l
      → IsSound c quiets chan (remove c word_of word l)
  remove-IsSound chan word l v = record {
    unique = IsUnique-remove c word_of word l v.unique;
    known = any-delete-false _ (λ bw. not (valid_action quiets bw.action)) l v.known;
    placed = any-delete-false _ (λ bw. not (strcmp_eq bw.channel chan)) l v.placed;
  }

  pub perform-IsSound :
      (v : Verb) (chan channel : Text) (word action : Option Text) (l : List Badword)
      → IsSound c quiets chan l
      → IsSound c quiets chan (perform c v si now quiets chan channel word action l).0
  unfolding perform
  perform-IsSound add chan channel (some w) (some a) l h = cmd_add-IsSound chan channel w a l h
  perform-IsSound add chan channel (some w) none l h = h
  perform-IsSound add chan channel none a l h = h
  perform-IsSound del chan channel (some w) a l h =
      rw (cmd_del-remove chan w l)
        (elim (Bool-cases si.ca_set) [ inl e ↦ rw e (remove-IsSound chan w l h) | inr e ↦ rw e h ])
  perform-IsSound del chan channel none a l h = h
  perform-IsSound list chan channel w a l h = elim (Bool-cases si.ca_aclview) [
    | inl e ↦ rw (e, cmd_list) h
    | inr e ↦ rw (e, cmd_list) h
  ]
  perform-IsSound other chan channel w a l h = h

  pub perform_denied :
      (v : Verb) (chan channel : Text) (word action : Option Text) (l : List Badword)
      → si.ca_set ≡ false
      → (perform c v si now quiets chan channel word action l).0 ≡ l
  unfolding perform cmd_add cmd_del cmd_list
  perform_denied add chan channel (some w) (some a) l h = ground arith
  perform_denied add chan channel (some w) none l h = refl
  perform_denied add chan channel none a l h = refl
  perform_denied del chan channel (some w) a l h = ground arith
  perform_denied del chan channel none a l h = refl
  perform_denied list chan channel w a l h = ground arith
  perform_denied other chan channel w a l h = refl

  pub add_list :
      (chan channel word action : Text) (l : List Badword)
      → si.ca_set ≡ true
      → valid_action quiets action ≡ true
      → (perform c add si now quiets chan channel (some word) (some action) l).0
        ≡ (if listed c word_of word l then l else l ++ entry_of si now chan word action ∷ [])
  unfolding perform cmd_add
  add_list chan channel word action l s k = ground arith

  pub del_list :
      (chan channel word : Text) (action : Option Text) (l : List Badword)
      → si.ca_set ≡ true
      → (perform c del si now quiets chan channel (some word) action l).0 ≡ remove c word_of word l
  unfolding perform
  del_list chan channel word action l s = rw (cmd_del-remove chan word l) (rw s)
