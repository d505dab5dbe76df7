-- ===== src/Trace/Operators.antt =====
-- The comparison operators.
use atheme_contrib_modules.Services.Tokens.{is_word}
use atheme_contrib_modules.Trace.{read_comparison_operator, starts}
use atheme_contrib_modules.Services.Text.{Text, codes}
use atheme_contrib_modules.Prelude.{
  ℕ, Bool, ◌<◌, if◌then◌else◌, ◌==◌, ◌≡◌, true, ◌++◌, ◌∷◌, arith, [], ◌&&◌, not, ◌||◌,
}

abbrev pub print_operator : ℕ → Text
print_operator c =
    if c == 1
    then codes "<"
    else if c == 2
    then codes "<="
    else if c == 3
    then codes ">"
    else if c == 4
    then codes ">="
    else codes "="

-- A number that an operator may stand before.
abbrev pub is_operand : Text → Bool
is_operand s = is_word s && not (starts 60 s || starts 61 s || starts 62 s)

-- An operator is read as the one that was written, and what follows it is left. Without an operator
-- the default is taken.
pub read-print_operator :
    (c d : ℕ) (s : Text)
    → c < 5
    → is_operand s ≡ true
    → (read_comparison_operator (print_operator c ++ s) d ≡ (c, s))
      × (read_comparison_operator s d ≡ (d, s))
unfolding read_comparison_operator
read-print_operator c d [] l h = cc
read-print_operator c d (x ∷ s) l h = ground arith
