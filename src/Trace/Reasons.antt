-- ===== src/Trace/Reasons.antt =====
-- The reason of KILL and AKILL.
use atheme_contrib_modules.Trace.{starts, tail}
use atheme_contrib_modules.Services.Metadata.{is_some}
use atheme_contrib_modules.Services.Text.{Text}
use atheme_contrib_modules.Services.Tokens.{skip_spaces, word_of, after_word, nonempty}
use atheme_contrib_modules.Services.Keyed.{any}
use atheme_contrib_modules.Trace.Actions.{until_quote, reason_extract}
use atheme_contrib_modules.Prelude.{
  ℕ, Bool, ◌==◌, ◌≡◌, some, false, ◌∷◌, ◌++◌, Option-cases, arith, inl, [], inr, not, refl, ◌&&◌,
  none,
}

abbrev pub is_quote : ℕ → Bool
is_quote c = c == 34

until_quote-append :
    (r rest : Text) → any is_quote r ≡ false → until_quote (r ++ 34 ∷ rest) ≡ some (r, rest)
unfolding until_quote any
until_quote-append [] rest h = refl
until_quote-append (c ∷ r) rest h = ground (arith, until_quote-append r rest)

until_quote-none : (s : Text) → is_some (until_quote s) ≡ any is_quote s
unfolding until_quote any
until_quote-none [] = refl
until_quote-none (c ∷ s) = elim (Option-cases (until_quote s)) [
  | inl e ↦ let u = until_quote-none s in ground (arith, u)
  | inr (p, e) ↦ let u = until_quote-none s in ground (arith, u)
]

-- A reason between quotation marks is taken as it is, without quotation marks inside it, and the
-- criteria follow it. There is no reason exactly if a quotation mark opens it and none closes it; a
-- reason that is missing altogether is taken for an empty one, and no criteria are left then.
pub reason_extract_lem :
    (r rest args : Text)
    → any is_quote r ≡ false
    → (reason_extract (34 ∷ r ++ 34 ∷ rest) ≡ (some r, nonempty rest))
      × (is_some (reason_extract args).0
          ≡ not (starts 34 (skip_spaces args) && not (any is_quote (tail (skip_spaces args)))))
      × (reason_extract [] ≡ (some [], none))
unfolding reason_extract skip_spaces word_of after_word
reason_extract_lem r rest args h = (
  rw (until_quote-append r rest h),
  ground (arith, until_quote-none (tail (skip_spaces args))),
  refl,
)
