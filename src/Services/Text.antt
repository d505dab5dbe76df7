-- ===== src/Services/Text.antt =====
-- C strings as lists of byte codes, and the functions of the C library that the modules call.
use Prim.Native.Char.{code}
use atheme_contrib_modules.Prelude.{
  ℕ, ◌+◌, ◌-◌, ◌*◌, String, ◌≡◌, refl, ◌↔◌, Bool, true, false, ◌&&◌, ◌||◌, List, [], ◌∷◌, map,
  arith, leb, ◌==◌, if◌then◌else◌, ◌++◌, take, length, sym, ◌∙◌, ◌<◌, take_all,
}
use atheme_contrib_modules.Prelude.Int.{ℤ, pos, sub_ℕ}

-- The bytes before the terminating zero.
abbrev pub Text : Type 0
Text = List ℕ

abbrev pub codes : String → Text
codes String.[] = []
codes (String.◌∷◌ c s) = code c ∷ codes s

-- tolower() in the C locale.
unfoldable pub tolower : ℕ → ℕ
tolower c = if leb 65 c && leb c 90 then c + 32 else c

-- `!strcmp(s, t)`.
unfoldable pub strcmp_eq : Text → Text → Bool
strcmp_eq [] [] = true
strcmp_eq [] (d ∷ t) = false
strcmp_eq (c ∷ s) [] = false
strcmp_eq (c ∷ s) (d ∷ t) = c == d && strcmp_eq s t

-- `!strcasecmp(s, t)`.
unfoldable pub strcasecmp_eq : Text → Text → Bool
unfolding strcmp_eq tolower
strcasecmp_eq s t = strcmp_eq (map tolower s) (map tolower t)

pub strcmp_eq_iff : (s t : Text) → (strcmp_eq s t ≡ true) ↔ (s ≡ t)
unfolding strcmp_eq
strcmp_eq_iff [] [] = ground arith
strcmp_eq_iff [] (d ∷ t) = ground arith
strcmp_eq_iff (c ∷ s) [] = ground arith
strcmp_eq_iff (c ∷ s) (d ∷ t) = ground (arith, strcmp_eq_iff s t)

pub strcmp_eq_refl : (s : Text) → strcmp_eq s s ≡ true
strcmp_eq_refl s = (strcmp_eq_iff s s).1 refl

pub strcasecmp_eq_iff : (s t : Text) → (strcasecmp_eq s t ≡ true) ↔ (map tolower s ≡ map tolower t)
unfolding strcasecmp_eq
strcasecmp_eq_iff s t = strcmp_eq_iff (map tolower s) (map tolower t)

pub strcasecmp_eq_refl : (s : Text) → strcasecmp_eq s s ≡ true
strcasecmp_eq_refl s = (strcasecmp_eq_iff s s).1 refl

pub strcasecmp_eq_sym : (s t : Text) → strcasecmp_eq s t ≡ true → strcasecmp_eq t s ≡ true
strcasecmp_eq_sym s t h = (strcasecmp_eq_iff t s).1 (sym ((strcasecmp_eq_iff s t).0 h))

pub strcasecmp_eq_trans :
    (s t u : Text) → strcasecmp_eq s t ≡ true → strcasecmp_eq t u ≡ true → strcasecmp_eq s u ≡ true
strcasecmp_eq_trans s t u h k =
    (strcasecmp_eq_iff s u).1 ((strcasecmp_eq_iff s t).0 h ∙ (strcasecmp_eq_iff t u).0 k)

unfoldable pub is_digit : ℕ → Bool
is_digit c = leb 48 c && leb c 57

-- isspace() in the C locale.
unfoldable pub is_space : ℕ → Bool
is_space c = c == 32 || (leb 9 c && leb c 13)

digits_value : ℕ → Text → ℕ
unfolding is_digit
digits_value n [] = n
digits_value n (c ∷ s) = if is_digit c then digits_value (n * 10 + (c - 48)) s else n

signed_value : Text → ℤ
unfolding digits_value
signed_value [] = pos 0
signed_value (c ∷ s) =
    if c == 45
    then sub_ℕ 0 (digits_value 0 s)
    else if c == 43
    then pos (digits_value 0 s)
    else pos (digits_value 0 (c ∷ s))

-- atoi(): spaces, a sign and the digits that follow. A value that does not fit in an int is
-- undefined in C, and is returned here as it is.
unfoldable pub atoi : Text → ℤ
unfolding is_space signed_value
atoi [] = pos 0
atoi (c ∷ s) = if is_space c then atoi s else signed_value (c ∷ s)

-- mowgli_strlcat(): `size` is the size of the buffer, which keeps a terminating zero.
unfoldable pub strlcat : Text → Text → ℕ → Text
strlcat s t size = s ++ take (size - 1 - length s) t

pub strlcat_fits : (s t : Text) (size : ℕ) → length s + length t < size → strlcat s t size ≡ s ++ t
unfolding strlcat
strlcat_fits s t size h = rw (take_all (size - 1 - length s) t (omega (arith, h))) refl
