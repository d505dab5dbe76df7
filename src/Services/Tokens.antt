-- ===== src/Services/Tokens.antt =====
-- strtok() as the modules use it: strtok(s, " ") for the next word, and then strtok(NULL, "") for all
-- that follows the space behind it.
use atheme_contrib_modules.Services.Keyed.{any}
use atheme_contrib_modules.Services.Text.{Text}
use atheme_contrib_modules.Prelude.{
  Option, Bool, ◌∷◌, none, false, ◌==◌, ◌≡◌, length, if◌then◌else◌, some, not, ◌++◌, [], true, ◌≤◌,
  arith, ◌<◌, refl,
}

unfoldable pub skip_spaces : Text → Text
skip_spaces [] = []
skip_spaces (c ∷ s) = if c == 32 then skip_spaces s else c ∷ s

unfoldable pub word_of : Text → Text
word_of [] = []
word_of (c ∷ s) = if c == 32 then [] else c ∷ word_of s

unfoldable pub after_word : Text → Text
after_word [] = []
after_word (c ∷ s) = if c == 32 then s else after_word s

-- A null pointer in place of an empty text.
abbrev pub nonempty : Text → Option Text
nonempty [] = none
nonempty (c ∷ s) = some (c ∷ s)

-- The next word and what is left, each none if there is nothing.
unfoldable pub next_word : Text → Option Text × Option Text
unfolding skip_spaces word_of after_word
next_word s = (nonempty (word_of (skip_spaces s)), nonempty (after_word (skip_spaces s)))

-- A text without spaces, and not empty.
abbrev pub is_word : Text → Bool
is_word [] = false
is_word (c ∷ s) = not (any (λ d. d == 32) (c ∷ s))

word_of-append : (w s : Text) → any (λ d. d == 32) w ≡ false → word_of (w ++ 32 ∷ s) ≡ w
unfolding word_of any
word_of-append [] s h = refl
word_of-append (c ∷ w) s h = ground (arith, word_of-append w s)

after_word-append : (w s : Text) → any (λ d. d == 32) w ≡ false → after_word (w ++ 32 ∷ s) ≡ s
unfolding after_word any
after_word-append [] s h = refl
after_word-append (c ∷ w) s h = ground (arith, after_word-append w s)

word_of-last : (w : Text) → any (λ d. d == 32) w ≡ false → (word_of w ≡ w) × (after_word w ≡ [])
unfolding word_of after_word any
word_of-last [] h = (refl, refl)
word_of-last (c ∷ w) h = ground (arith, word_of-last w)

-- A word before a space is read as it is, and so is what follows the space.
pub next_word-append :
    (w s : Text) → is_word w ≡ true → next_word (w ++ 32 ∷ s) ≡ (some w, nonempty s)
unfolding next_word skip_spaces any
next_word-append [] s h = cc
next_word-append (c ∷ w) s h = ground (arith, word_of-append (c ∷ w) s, after_word-append (c ∷ w) s)

pub next_word-last : (w : Text) → is_word w ≡ true → next_word w ≡ (some w, none)
unfolding next_word skip_spaces any
next_word-last [] h = cc
next_word-last (c ∷ w) h = ground (arith, word_of-last (c ∷ w))

length-skip_spaces : (s : Text) → length (skip_spaces s) ≤ length s
unfolding skip_spaces
length-skip_spaces [] = omega arith
length-skip_spaces (c ∷ s) = ground (arith, length-skip_spaces s)

nonempty_eq : (s r : Text) → nonempty s ≡ some r → s ≡ r
nonempty_eq [] r h = cc
nonempty_eq (c ∷ s) r h = cc

after_word-shorter : (s r : Text) → nonempty (after_word s) ≡ some r → length r < length s
unfolding after_word
after_word-shorter [] r h = cc
after_word-shorter (c ∷ s) r h =
    ground (arith, after_word-shorter s r, nonempty_eq s r, nonempty_eq (after_word s) r)

-- What is left is shorter.
pub next_word-shorter : (s r : Text) → (next_word s).1 ≡ some r → length r < length s
unfolding next_word
next_word-shorter s r h =
    let shorter = after_word-shorter (skip_spaces s) r h in
    omega (arith, length-skip_spaces s, shorter)
