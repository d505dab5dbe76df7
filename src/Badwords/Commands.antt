-- ===== src/Badwords/Commands.antt =====
-- The lists of bad words of all channels under the BADWORDS command.
use atheme_contrib_modules.Services.Keyed.{length-delete}
use Option.{none}
use atheme_contrib_modules.Badwords.Channels.{run_on_same, run_on-find}
use atheme_contrib_modules.Badwords.Lists.{
  perform-IsSound, IsSound, perform_denied, add_list, del_list,
}
use atheme_contrib_modules.Services.Text.{Text}
use atheme_contrib_modules.Prelude.{
  ℕ, Bool, List, Option, ◌∷◌, some, ◌≡◌, false, true, none, [], Bool-cases, Option-cases,
  if◌then◌else◌, refl, inl, inr, ◌++◌, ◌&&◌, not, length, ◌||◌, ◌+◌,
}
use atheme_contrib_modules.Badwords.{
  Source, replace, run_on, cs_cmd_badwords, Mychan, on_list, Badword, verb_of, Event, perform, add,
  del, valid_action, mychan_find, word_of, entry_of,
}
use atheme_contrib_modules.Services.Registry.{
  Casemap, remove, listed, listed-add_iff, listed-remove_iff, is_named,
}
use mathlib.Core.Option

module _ (c : Casemap) (si : Source) (now : ℕ) (quiets : Bool) {M : Type 0} where
  abbrev pub AllSound : List (Mychan M) → Type 0
  AllSound [] = Unit {0}
  AllSound (mc ∷ mclist) = IsSound c quiets mc.name mc.badwords × AllSound mclist

  replace-AllSound :
      (channel : Text) (run : Text → List Badword → List Badword × List Event)
      (mclist : List (Mychan M))
      → ((chan : Text) (l : List Badword)
          → IsSound c quiets chan l
          → IsSound c quiets chan (run chan l).0)
      → AllSound mclist
      → AllSound (replace c channel (λ m. (on_list c run m).0) mclist)
  unfolding replace on_list
  replace-AllSound channel run [] keeps h = tt
  replace-AllSound channel run (mc ∷ mclist) keeps h = elim (Bool-cases (c.same mc.name channel)) [
    | inl e ↦ rw e (keeps mc.name mc.badwords h.0, h.1)
    | inr e ↦ rw e (h.0, replace-AllSound channel run mclist keeps h.1)
  ]

  run_on-AllSound :
      (channel : Text) (run : Text → List Badword → List Badword × List Event)
      (mclist : List (Mychan M))
      → ((chan : Text) (l : List Badword)
          → IsSound c quiets chan l
          → IsSound c quiets chan (run chan l).0)
      → AllSound mclist
      → AllSound (run_on c channel (on_list c run) mclist).0
  unfolding run_on
  run_on-AllSound channel run mclist keeps h = elim (Option-cases (mychan_find c channel mclist)) [
    | inl e ↦ rw (e, run_on) h
    | inr (mc, e) ↦ rw (e, run_on) (replace-AllSound channel run mclist keeps h)
  ]

  -- The lists of all channels stay sound under every call of BADWORDS, whatever its parameters,
  -- the rights of its source and its outcome.
  pub cs_cmd_badwords-AllSound :
      (channel command word action : Option Text) (mclist : List (Mychan M))
      → AllSound mclist
      → AllSound (cs_cmd_badwords c si now quiets channel command word action mclist).0
  unfolding cs_cmd_badwords
  cs_cmd_badwords-AllSound none command word action mclist h = h
  cs_cmd_badwords-AllSound (some ch) none word action mclist h = h
  cs_cmd_badwords-AllSound (some ch) (some cmd) word action mclist h =
      run_on-AllSound ch (λ chan l. perform c (verb_of cmd) si now quiets chan ch word action l)
        mclist (λ chan l. perform-IsSound c si now quiets (verb_of cmd) chan ch word action l) h

  -- Without the right to change the channel's settings no list is changed, whatever the command.
  pub cs_cmd_badwords_denied :
      (channel command word action : Option Text) (mclist : List (Mychan M))
      → si.ca_set ≡ false
      → (cs_cmd_badwords c si now quiets channel command word action mclist).0 ≡ mclist
  unfolding cs_cmd_badwords
  cs_cmd_badwords_denied none command word action mclist h = refl
  cs_cmd_badwords_denied (some ch) none word action mclist h = refl
  cs_cmd_badwords_denied (some ch) (some cmd) word action mclist h =
      run_on_same c ch (λ chan l. perform c (verb_of cmd) si now quiets chan ch word action l)
        mclist (λ chan l. perform_denied c si now quiets (verb_of cmd) chan ch word action l h)

  -- ADD of a word with a known action, by a source with the right to: the channel's list is as it
  -- was if it has the word, and else has one new entry at its end; so exactly the given word and
  -- the words of before are listed; and the other channels are as they were.
  pub cs_cmd_badwords_add :
      (channel command word action probe elsewhere : Text) (mclist : List (Mychan M))
      (mc : Mychan M)
      → verb_of command ≡ add
      → si.ca_set ≡ true
      → valid_action quiets action ≡ true
      → mychan_find c channel mclist ≡ some mc
      → let after =
          (cs_cmd_badwords c si now quiets
            (some channel)
            (some command)
            (some word)
            (some action)
            mclist).0 in
        let l =
          if listed c word_of word mc.badwords
          then mc.badwords
          else mc.badwords ++ entry_of si now mc.name word action ∷ [] in
        (mychan_find c elsewhere after ≡ (
          if c.same channel elsewhere
          then some (record mc { badwords = l })
          else mychan_find c elsewhere mclist))
        × (listed c word_of probe l ≡ (listed c word_of probe mc.badwords || c.same word probe))
  unfolding cs_cmd_badwords
  cs_cmd_badwords_add channel command word action probe elsewhere mclist mc v s k e = (
    rw v (
        rw
          (run_on-find c channel elsewhere
            (λ chan l. perform c add si now quiets chan channel (some word) (some action) l) mclist
            mc e)
          (rw (add_list c si now quiets mc.name channel word action mc.badwords s k))),
    listed-add_iff c word_of probe mc.badwords (entry_of si now mc.name word action),
  )

  -- DEL of a word, by a source with the right to, from a channel with a sound list: that word is
  -- not listed afterwards, every other word is listed exactly if it was, the list is shorter by
  -- one entry exactly if it had the word, and the other channels are as they were.
  pub cs_cmd_badwords_del :
      (channel command word probe elsewhere : Text) (action : Option Text)
      (mclist : List (Mychan M)) (mc : Mychan M)
      → verb_of command ≡ del
      → si.ca_set ≡ true
      → mychan_find c channel mclist ≡ some mc
      → IsSound c quiets mc.name mc.badwords
      → let after =
          (cs_cmd_badwords c si now quiets
            (some channel)
            (some command)
            (some word)
            action
            mclist).0 in
        let l = remove c word_of word mc.badwords in
        (mychan_find c elsewhere after ≡ (
          if c.same channel elsewhere
          then some (record mc { badwords = l })
          else mychan_find c elsewhere mclist))
        × (listed c word_of probe l
            ≡ (listed c word_of probe mc.badwords && not (c.same word probe)))
        × (length l + (if listed c word_of word mc.badwords then 1 else 0) ≡ length mc.badwords)
  unfolding cs_cmd_badwords
  cs_cmd_badwords_del channel command word probe elsewhere action mclist mc v s e h = (
    rw v (
        rw
          (run_on-find c channel elsewhere
            (λ chan l. perform c del si now quiets chan channel (some word) action l) mclist mc e)
          (rw (del_list c si now quiets mc.name channel word action mc.badwords s))),
    listed-remove_iff c word_of probe word mc.badwords h.unique,
    length-delete (is_named c word_of word) mc.badwords,
  )
