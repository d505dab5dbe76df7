-- ===== src/Ajoin/Items.antt =====
-- The loop of DEL in ns_cmd_ajoin(), on a list that ADD put the channel behind.

use Prim.Native.Nat.{zero}
use atheme_contrib_modules.Prelude.{
  ℕ, Bool, take, ◌≡◌, not, length, ◌++◌, ◌==◌, true, ◌≤◌, ◌∷◌, ◌+◌, ◌||◌, [], arith, suc, false, ap,
  ◌<◌, refl, zero, ◌∙◌, if◌then◌else◌, length-append, sym, some, ◌-◌, none,
}
use atheme_contrib_modules.Services.Text.{Text, tolower}
use atheme_contrib_modules.Ajoin.{scan, scan_char, Scan, char_at, scan_start, removed_from}
use atheme_contrib_modules.Services.Keyed.{any}
use mathlib.Core.List.{append_assoc}

scan-append :
    (p a b : Text) (i : ℕ) (s : Scan) → scan p i (a ++ b) s ≡ scan p (i + length a) b (scan p i a s)
unfolding scan
scan-append p [] b i s = ap (λ k. scan p k b s) (omega arith)
scan-append p (c ∷ a) b i s =
    scan-append p a b (suc i) (scan_char p i c s)
    ∙ ap (λ k. scan p k b (scan p (suc i) a (scan_char p i c s))) (omega arith)

-- What was found is a whole item.
abbrev is_whole : Text → Scan → Bool
is_whole p s = (s.rmlen == 0) || (char_at p s.j == 0)

scan_char-is_whole :
    (p : Text) (i c : ℕ) (s : Scan) → is_whole p s ≡ true → is_whole p (scan_char p i c s) ≡ true
unfolding scan_char
scan_char-is_whole p i c s h = ground (arith, h)

scan-is_whole :
    (p list : Text) (i : ℕ) (s : Scan) → is_whole p s ≡ true → is_whole p (scan p i list s) ≡ true
unfolding scan
scan-is_whole p [] i s h = h
scan-is_whole p (c ∷ list) i s h =
    scan-is_whole p list (suc i) (scan_char p i c s) (scan_char-is_whole p i c s h)

-- A channel as it can be given: no comma and no zero byte in it.
abbrev pub is_proper : Text → Bool
is_proper p = not (any (λ c. c == 44 || c == 0) p)

char_at-proper :
    (p : Text) (j : ℕ)
    → is_proper p ≡ true
    → ((tolower 44 == tolower (char_at p j)) ≡ false) × (j < length p → (char_at p j == 0) ≡ false)
unfolding any tolower
char_at-proper [] j h = (refl, λ k. elim k [ ])
char_at-proper (c ∷ p) zero h = ground (arith, h)
char_at-proper (c ∷ p) (suc j) h =
    let (other, inside) = char_at-proper p j (ground (arith, h)) in
    (other, λ k. inside (omega (arith, k)))

-- A comma starts the comparison again.
scan_char-comma :
    (p : Text) (i : ℕ) (s : Scan)
    → is_proper p ≡ true
    → s.rmlen ≡ 0
    → scan_char p i 44 s ≡ record { rmlen = 0; itempos = s.itempos; j = 0 }
unfolding scan_char tolower
scan_char-comma p i s h k = let (other, _) = char_at-proper p s.j h in ground (arith, other, k)

char_at-append : (a b : Text) (c : ℕ) → char_at (a ++ c ∷ b) (length a) ≡ c
char_at-append [] b c = refl
char_at-append (d ∷ a) b c = char_at-append a b c

pub char_at-end : (s : Text) (i : ℕ) → length s ≤ i → char_at s i ≡ 0
char_at-end [] i h = refl
char_at-end (c ∷ s) zero h = elim h [ ]
char_at-end (c ∷ s) (suc i) h = char_at-end s i (omega (arith, h))

take-append : (a b : Text) → take (length a) (a ++ b) ≡ a
take-append [] b = refl
take-append (c ∷ a) b = ap (λ s. c ∷ s) (take-append a b)

-- The next byte agrees, at an index after `start` by the bytes compared before.
scan_char-next :
    (p pre q : Text) (c start t : ℕ)
    → p ≡ pre ++ c ∷ q
    → (if length pre == 0 then start else t) ≡ start
    → scan_char p (start + length pre) c (record { rmlen = 0; itempos = t; j = length pre })
      ≡ record {
        rmlen = if char_at p (length pre + 1) == 0 then length pre + 1 else 0;
        itempos = start;
        j = length pre + 1;
      }
unfolding scan_char
scan_char-next p pre q c start t e k =
    let same : char_at p (length pre) ≡ c = rw e (char_at-append pre q c) in
    let first : (if length pre == 0 then start + length pre else t) ≡ start = ground (arith, k) in
    rw (same, first) (ground arith)

-- The loop over a channel, of which `pre` has been compared; the first byte stands at `start`.
pub scan_item :
    (p pre q : Text) (c start t : ℕ)
    → p ≡ pre ++ c ∷ q
    → is_proper p ≡ true
    → (if length pre == 0 then start else t) ≡ start
    → scan p (start + length pre) (c ∷ q) (record { rmlen = 0; itempos = t; j = length pre })
      ≡ record { rmlen = length p; itempos = start; j = length p }
unfolding scan
scan_item p pre [] c start t e h k =
    let n : length p ≡ length pre + 1 = ap length e ∙ length-append pre (c ∷ []) in
    rw (scan_char-next p pre [] c start t e k, char_at-end p (length pre + 1) (omega (arith, n)), n)
      refl
scan_item p pre (d ∷ q) c start t e h k =
    let n : length (pre ++ c ∷ []) ≡ length pre + 1 = length-append pre (c ∷ []) in
    let e' : p ≡ (pre ++ c ∷ []) ++ d ∷ q = e ∙ sym (append_assoc pre (c ∷ []) (d ∷ q)) in
    let (_, inside) = char_at-proper p (length pre + 1) h in
    let more : (char_at p (length pre + 1) == 0) ≡ false =
      inside (omega (arith, ap length e, length-append pre (c ∷ d ∷ q))) in
    let rest : scan p (suc (start + length pre)) (d ∷ q)
          (record { rmlen = 0; itempos = start; j = length pre + 1 })
        ≡ record { rmlen = length p; itempos = start; j = length p } =
      ap (λ i. scan p i (d ∷ q) (record { rmlen = 0; itempos = start; j = length pre + 1 }))
        (omega arith)
      ∙ ap (λ l. scan p (start + l) (d ∷ q) (record { rmlen = 0; itempos = start; j = l })) (sym n)
      ∙ scan_item p (pre ++ c ∷ []) q d start start e' h (ground arith) in
    rw (scan_char-next p pre (d ∷ q) c start t e k, more) rest

-- The loop over a list without the channel, a comma and the channel finds the channel there.
pub scan_added :
    (v p : Text) (c : ℕ) (q : Text)
    → p ≡ c ∷ q
    → is_proper p ≡ true
    → (char_at p (scan p 0 v scan_start).j == 0) ≡ false
    → scan p 0 (v ++ 44 ∷ p) scan_start
      ≡ record { rmlen = length p; itempos = length v + 1; j = length p }
unfolding scan
scan_added v p c q e h k =
    let s = scan p 0 v scan_start in
    let whole : is_whole p s ≡ true = scan-is_whole p v 0 scan_start refl in
    let none_yet : s.rmlen ≡ 0 = ground (arith, whole, k) in
    let begin : Scan = record { rmlen = 0; itempos = s.itempos; j = 0 } in
    scan-append p v (44 ∷ p) 0 scan_start
    ∙ ap (scan p (suc (0 + length v)) p) (scan_char-comma p (0 + length v) s h none_yet)
    ∙ ap (λ r. scan p (suc (0 + length v)) r begin) e
    ∙ ap (λ i. scan p i (c ∷ q) begin) (omega arith)
    ∙ scan_item p [] q c (length v + 1) s.itempos e h refl

pub removed_added :
    (v p : Text)
    → removed_from (v ++ 44 ∷ p) (record { rmlen = length p; itempos = length v + 1; j = length p })
      ≡ some v
unfolding removed_from
removed_added v p =
    let at_end : char_at (v ++ 44 ∷ p) (length v + 1 + length p) ≡ 0 =
      char_at-end (v ++ 44 ∷ p) (length v + 1 + length p)
        (omega (arith, length-append v (44 ∷ p))) in
    let before : length v + 1 - 1 ≡ length v = omega arith in
    let kept : take (length v + 1 - 1) (v ++ 44 ∷ p) ≡ v =
      ap (λ n. take n (v ++ 44 ∷ p)) before ∙ take-append v (44 ∷ p) in
    ground (arith, at_end, kept)

pub removed_alone :
    (p : Text) → removed_from p (record { rmlen = length p; itempos = 0; j = length p }) ≡ none
unfolding removed_from
removed_alone p =
    let at_end : char_at p (0 + length p) ≡ 0 = char_at-end p (0 + length p) (omega arith) in
    ground (arith, at_end)
