-- ===== src/Services/Numbers.antt =====
-- Numbers in decimal, as the printf() and scanf() of the C library write and read them.
use mathlib.Core.List.{append_assoc}
use Prim.Native.Nat.{zero}
use atheme_contrib_modules.Services.Text.{Text, is_digit}
use atheme_contrib_modules.Prelude.{
  ℕ, ◌<◌, ◌++◌, ◌≡◌, suc, Bool-cases, ltb, inl, inr, zero, ◌∷◌, ◌+◌, ◌*◌, [], true, arith, false,
  ◌-◌, ap, ltb→lt, refl, ◌∙◌, ◌/◌, ◌%◌, if◌then◌else◌, ◌≤◌, ◌^◌, length, length-append,
}

-- %u of sscanf(): digits and what follows them.
unfoldable pub scan_digits : ℕ → Text → ℕ × Text
unfolding is_digit
scan_digits n [] = (n, [])
scan_digits n (c ∷ s) = if is_digit c then scan_digits (n * 10 + (c - 48)) s else (n, c ∷ s)

-- The decimal digits that %u prints; the number itself is enough fuel.
unfoldable pub print_from : ℕ → ℕ → Text
print_from zero n = []
print_from (suc fuel) n =
    let rest = print_from fuel (n / 10) in
    if ltb n 10 then (48 + n) ∷ [] else rest ++ (48 + n % 10) ∷ []

unfoldable pub print_uint : ℕ → Text
unfolding print_from
print_uint n = print_from (suc n) n

pub is_digit_code : (d : ℕ) → d < 10 → is_digit (48 + d) ≡ true
unfolding is_digit
is_digit_code d h = ground arith

pub scan_digits-digit :
    (m d : ℕ) (s : Text) → d < 10 → scan_digits m ((48 + d) ∷ s) ≡ scan_digits (m * 10 + d) s
unfolding scan_digits
scan_digits-digit m d s h =
    let value : 48 + d - 48 ≡ d = omega arith in
    rw (is_digit_code d h) (ap (λ v. scan_digits (m * 10 + v) s) value)

-- Reading what was printed is reading on with that number.
pub scan_digits-from :
    (fuel n : ℕ) (s : Text) → n < fuel → scan_digits 0 (print_from fuel n ++ s) ≡ scan_digits n s
unfolding print_from
scan_digits-from zero n s h = elim h [ ]
scan_digits-from (suc fuel) n s h = elim (Bool-cases (ltb n 10)) [
  | inl small ↦
      let value : 0 * 10 + n ≡ n = omega arith in
      rw small (scan_digits-digit 0 n s (ltb→lt n 10 small) ∙ ap (λ v. scan_digits v s) value)
  | inr large ↦
      let value : n / 10 * 10 + n % 10 ≡ n = omega arith in
      let more : n / 10 < fuel = ground arith in
      rw large (
        rw append_assoc (
          scan_digits-from fuel (n / 10) ((48 + n % 10) ∷ s) more
          ∙ scan_digits-digit (n / 10) (n % 10) s (omega arith)
          ∙ ap (λ v. scan_digits v s) value))
]

-- A printed number begins with a digit.
pub print_from-cons :
    (fuel n : ℕ) (s : Text)
    → n < fuel
    → (d : ℕ) × (t : Text) × (print_from fuel n ++ s ≡ d ∷ t) × (is_digit d ≡ true)
unfolding print_from
print_from-cons zero n s h = elim h [ ]
print_from-cons (suc fuel) n s h = elim (Bool-cases (ltb n 10)) [
  | inl small ↦ (48 + n, s, rw small, is_digit_code n (ltb→lt n 10 small))
  | inr large ↦
      let (d, t, e, h') = print_from-cons fuel (n / 10) ((48 + n % 10) ∷ s) (ground arith) in
      (d, t, rw large (rw append_assoc e), h')
]

-- The text behind a number does not go on with a digit.
abbrev pub Stops : Text → Type 0
Stops [] = Unit {0}
Stops (c ∷ s) = is_digit c ≡ false

pub scan_digits-stop : (n : ℕ) (s : Text) → Stops s → scan_digits n s ≡ (n, s)
unfolding scan_digits
scan_digits-stop n [] h = refl
scan_digits-stop n (c ∷ s) h = rw h

length-print_from : (fuel n k : ℕ) → n < fuel → n < 10 ^ suc k → length (print_from fuel n) ≤ suc k
unfolding print_from
length-print_from zero n k h b = elim h [ ]
length-print_from (suc fuel) n zero h b = ground arith
length-print_from (suc fuel) n (suc k) h b = elim (Bool-cases (ltb n 10)) [
  | inl small ↦ rw small (omega arith)
  | inr large ↦
      let shorter = length-print_from fuel (n / 10) k (ground arith) (omega arith) in
      rw large
        (omega (arith, shorter, length-append (print_from fuel (n / 10)) ((48 + n % 10) ∷ [])))
]

-- A number below 10 ^ (k + 1) has k + 1 digits at most.
pub length-print_uint : (n k : ℕ) → n < 10 ^ suc k → length (print_uint n) ≤ suc k
unfolding print_uint
length-print_uint n k h = length-print_from (suc n) n k (omega arith) h
