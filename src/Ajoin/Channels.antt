-- ===== src/Ajoin/Channels.antt =====
-- Adding a channel to those of ns_cmd_ajoin(), and what ajoin_on_identify() makes of them.
use mathlib.Core.Option.{none}
use mathlib.Core.List.{append_assoc}
use atheme_contrib_modules.Services.Metadata.{Metadata}
use atheme_contrib_modules.Services.Keyed.{any, any-append}
use atheme_contrib_modules.Prelude.{
  Bool, List, ℕ, ◌≡◌, ◌&&◌, false, true, ◌++◌, ◌==◌, ◌∷◌, not, arith, [], ap, refl, ◌∙◌, length,
  ◌+◌, ◌≤◌, take, take_all, length-append, leb, some, ◌⊎◌, Option-cases, inl, inr, map, sym,
}
use atheme_contrib_modules.Ajoin.{
  cut, nonempty_of, tokens, skip_separators, is_comma, first_channel, is_space_or_comma,
  later_channels, joined_to, autojoin, cmd_add, channels, added, Event, ajoin_on_identify, cmd_list,
  list_start, list_line, list_end,
}
use atheme_contrib_modules.Services.Text.{
  Text, strlcat, codes, strcasecmp_eq, strcasecmp_eq_refl, strlcat_fits,
}
use atheme_contrib_modules.Services.Tokens.{is_word}

-- A channel that ADD can take apart from the others again: no comma in it.
abbrev pub is_channel : Text → Bool
is_channel p = is_word p && not (any is_comma p)

cut-append :
    (v p : Text)
    → cut is_comma (v ++ 44 ∷ p)
      ≡ ((cut is_comma v).0, (cut is_comma v).1 ++ (cut is_comma p).0 ∷ (cut is_comma p).1)
unfolding cut
cut-append [] p = refl
cut-append (c ∷ v) p = ground (arith, cut-append v p)

cut-one : (p : Text) → any is_comma p ≡ false → cut is_comma p ≡ (p, [])
unfolding cut any
cut-one [] h = refl
cut-one (c ∷ p) h = ground (arith, cut-one p)

nonempty_of-append : (l r : List Text) → nonempty_of (l ++ r) ≡ nonempty_of l ++ nonempty_of r
unfolding nonempty_of
nonempty_of-append [] r = refl
nonempty_of-append ([] ∷ l) r = nonempty_of-append l r
nonempty_of-append ((c ∷ w) ∷ l) r = ap (λ t. (c ∷ w) ∷ t) (nonempty_of-append l r)

tokens-append :
    (v p : Text)
    → any is_comma p ≡ false
    → tokens is_comma (v ++ 44 ∷ p) ≡ tokens is_comma v ++ nonempty_of (p ∷ [])
unfolding tokens
tokens-append v p h =
    rw (cut-append v p, cut-one p h)
      (nonempty_of-append ((cut is_comma v).0 ∷ (cut is_comma v).1) (p ∷ []))

nonempty_of-one : (p : Text) → is_word p ≡ true → nonempty_of (p ∷ []) ≡ p ∷ []
unfolding nonempty_of
nonempty_of-one [] h = cc
nonempty_of-one (c ∷ p) h = refl

-- Without spaces, the two ways to take the text apart agree.
tokens-skip :
    (v : Text)
    → any (λ d. d == 32) v ≡ false
    → tokens is_comma (skip_separators v) ≡ tokens is_comma v
unfolding tokens cut nonempty_of skip_separators any
tokens-skip [] h = refl
tokens-skip (c ∷ v) h = ground (arith, tokens-skip v)

spaces-skip :
    (v : Text) → any (λ d. d == 32) v ≡ false → any (λ d. d == 32) (skip_separators v) ≡ false
unfolding skip_separators any
spaces-skip [] h = refl
spaces-skip (c ∷ v) h = ground (arith, spaces-skip v)

skip-head : (v : Text) (c : ℕ) (s : Text) → skip_separators v ≡ c ∷ s → is_space_or_comma c ≡ false
unfolding skip_separators
skip-head [] c s h = cc
skip-head (d ∷ v) c s h = ground (arith, skip-head v c s)

first-cut :
    (v : Text)
    → any (λ d. d == 32) v ≡ false
    → ((first_channel v).0 ≡ (cut is_comma v).0)
      × (tokens is_comma (first_channel v).1 ≡ nonempty_of (cut is_comma v).1)
unfolding tokens cut nonempty_of first_channel any
first-cut [] h = (refl, refl)
first-cut (c ∷ v) h = ground (arith, first-cut v)

joined_head :
    (t : Text)
    → ((c : ℕ) (s : Text) → t ≡ c ∷ s → is_space_or_comma c ≡ false)
    → any (λ d. d == 32) t ≡ false
    → (let (chan, rest) = first_channel t in later_channels chan rest) ≡ tokens is_comma t
unfolding tokens cut nonempty_of first_channel any
joined_head [] k h = refl
joined_head (c ∷ s) k h = ground (arith, first-cut s, k c s refl)

-- Whoever identifies is joined to the channels that LIST shows.
joined_to-tokens : (v : Text) → any (λ d. d == 32) v ≡ false → joined_to v ≡ tokens is_comma v
unfolding joined_to
joined_to-tokens v h =
    joined_head (skip_separators v) (skip-head v) (spaces-skip v h) ∙ tokens-skip v h

-- ADD never fills the buffer.
strlcat_short :
    (v p : Text)
    → length v + length p ≤ 400
    → strlcat (strlcat (take 511 v) (codes ",") 512) p 512 ≡ v ++ 44 ∷ p
strlcat_short v p h =
    rw
      (
        take_all 511 v (omega (arith, h)),
        strlcat_fits v (codes ",") 512 (omega (arith, h)),
        strlcat_fits (v ++ 44 ∷ []) p 512 (omega (arith, h, length-append v (44 ∷ []))),
      )
      (append_assoc v (44 ∷ []) p)

tokens-one : (p : Text) → is_channel p ≡ true → tokens is_comma p ≡ p ∷ []
unfolding tokens
tokens-one p h = rw (cut-one p (ground (arith, h))) (nonempty_of-one p (ground (arith, h)))

spaces-append :
    (v p : Text)
    → any (λ d. d == 32) v ≡ false
    → is_word p ≡ true
    → any (λ d. d == 32) (v ++ 44 ∷ p) ≡ false
unfolding any
spaces-append v [] h k = cc
spaces-append v (c ∷ p) h k = any-append (λ d. d == 32) v (44 ∷ c ∷ p) ∙ rw h (ground (arith, k))

spaces_word : (p : Text) → is_word p ≡ true → any (λ d. d == 32) p ≡ false
unfolding any
spaces_word [] h = cc
spaces_word (c ∷ p) h = ground (arith, h)

channels_short : (v : Text) → length v ≤ 511 → channels v ≡ tokens is_comma v
unfolding channels
channels_short v h = rw (take_all 511 v h) refl

abbrev pub shown : List Text → List Event
shown l = list_start ∷ (map list_line l ++ (list_end ∷ []))

module _ {M : Type 0} (md : Metadata M) where
  abbrev pub value_of : M → Text
  value_of m = elim (md.metadata_find autojoin m) [ none ↦ [] | some v ↦ v ]

  -- The channels of an account whose value fits in the buffer and has no spaces.
  abbrev pub plain_value : Text → Bool
  plain_value v = leb (length v) 511 && not (any (λ d. d == 32) v)

  -- A channel that was added, and the value that it makes.
  pub added_cases :
      (m m' : M) (p : Text)
      → cmd_add md (some p) m ≡ (m', added p ∷ [])
      → ((md.metadata_find autojoin m ≡ none) × (m' ≡ md.metadata_add autojoin p m))
        ⊎ ((v : Text) × (md.metadata_find autojoin m ≡ some v)
            × (any (λ chan. strcasecmp_eq chan p) (channels v) ≡ false)
            × (length v + length p ≤ 400)
            × (m' ≡ md.metadata_add autojoin (v ++ 44 ∷ p) (md.metadata_delete autojoin m)))
  unfolding cmd_add
  added_cases m m' p h = elim (Option-cases (md.metadata_find autojoin m)) [
    | inl e ↦ inl (e, ground (arith, e))
    | inr (v, e) ↦
        inr (v, e, ground (arith, e), ground (arith, e), ground (arith, e, strlcat_short v p))
  ]

  pub find_added :
      (v : Text) (m : M) → md.metadata_find autojoin (md.metadata_add autojoin v m) ≡ some v
  find_added v m = ground (arith, md.find-add autojoin v autojoin m, strcasecmp_eq_refl autojoin)

  joins_value :
      (m : M) (v : Text)
      → md.metadata_find autojoin m ≡ some v
      → plain_value v ≡ true
      → ajoin_on_identify md m ≡ tokens is_comma v
  unfolding ajoin_on_identify
  joins_value m v e h =
      rw (e, ajoin_on_identify)
        (rw (take_all 511 v (ground (arith, h))) (joined_to-tokens v (ground (arith, h))))

  list_value :
      (m : M) (v : Text)
      → md.metadata_find autojoin m ≡ some v
      → plain_value v ≡ true
      → cmd_list md m ≡ shown (tokens is_comma v)
  unfolding cmd_list
  list_value m v e h = rw (e, cmd_list) (rw (channels_short v (ground (arith, h))) refl)

  shows_value :
      (m₀ m : M) (v : Text) (l : List Text)
      → m ≡ md.metadata_add autojoin v m₀
      → length v ≤ 511
      → any (λ d. d == 32) v ≡ false
      → tokens is_comma v ≡ l
      → (cmd_list md m ≡ shown l) × (ajoin_on_identify md m ≡ l)
  shows_value m₀ m v l e n s t =
      let found : md.metadata_find autojoin m ≡ some v = rw e (find_added v m₀) in
      let plain : plain_value v ≡ true = ground (arith, n, s) in
      rw (sym t) (list_value m v found plain, joins_value m v found plain)

  -- If ADD, of a channel without commas and spaces and of at most 400 bytes, says that it was added, to
  -- a list without spaces, then it was not on the list that LIST showed before; LIST then shows that
  -- list and the channel behind it, and those are the channels that the user is joined to when he
  -- identifies.
  pub add_joins :
      (m m' : M) (p : Text)
      → is_channel p ≡ true
      → length p ≤ 400
      → any (λ d. d == 32) (value_of m) ≡ false
      → cmd_add md (some p) m ≡ (m', added p ∷ [])
      → (l : List Text) × (cmd_list md m ≡ shown l)
        × (any (λ chan. strcasecmp_eq chan p) l ≡ false)
        × (cmd_list md m' ≡ shown (l ++ p ∷ []))
        × (ajoin_on_identify md m' ≡ l ++ p ∷ [])
  unfolding cmd_list any
  add_joins m m' p c n w h = elim (added_cases m m' p h) [
    | inl (e, f) ↦
        let (shows, joins) =
          shows_value m m' p (p ∷ []) f (omega (arith, n)) (spaces_word p (ground (arith, c)))
            (tokens-one p c) in
        ([], rw (e, cmd_list) refl, refl, shows, joins)
    | inr (v, e, fresh, k, f) ↦
        let spaces : any (λ d. d == 32) v ≡ false = ground (arith, e, w) in
        let (shows, joins) =
          shows_value (md.metadata_delete autojoin m) m' (v ++ 44 ∷ p) (tokens is_comma v ++ p ∷ [])
            f (omega (arith, k, length-append v (44 ∷ p)))
            (spaces-append v p spaces (ground (arith, c)))
            (tokens-append v p (ground (arith, c))
              ∙ ap (λ r. tokens is_comma v ++ r) (nonempty_of-one p (ground (arith, c)))) in
        (
          tokens is_comma v,
          list_value m v e (ground (arith, k, spaces)),
          ap (any (λ chan. strcasecmp_eq chan p)) (sym (channels_short v (omega (arith, k))))
              ∙ fresh,
          shows,
          joins,
        )
  ]
