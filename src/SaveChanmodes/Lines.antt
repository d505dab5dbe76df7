-- ===== src/SaveChanmodes/Lines.antt =====
-- The words of a line that was written.
use atheme_contrib_modules.Services.Numbers.{
  print_uint, print_from, print_from-cons, scan_digits, scan_digits-from, scan_digits-stop,
}
use mathlib.Core.List.{append_assoc, append-nil}
use Prim.Native.Nat.{zero}
use atheme_contrib_modules.Services.Keyed.{any, any-append}
use atheme_contrib_modules.Services.Text.{Text, strcmp_eq, codes, is_space, is_digit}
use atheme_contrib_modules.SaveChanmodes.{
  strtok, until, after, pass_over, strtok_rest, fgets, written, Event, load_line, load_lines,
  chan_line, load_item, Channel, restore_channel, load_chan, load_topic, load_ban, ban_line,
  restore_topic, restore_ban, strtoul, or_else, topic_line, ulong,
}
use atheme_contrib_modules.Prelude.{
  ℕ, Bool, ◌≡◌, not, true, ◌∷◌, ◌==◌, ◌++◌, some, arith, ==_iff, [], false, ◌&&◌, List, length, ltb,
  ◌<◌, ◌≤◌, Option, suc, length-append, zero, refl, ◌∙◌, ap, get_or, Bool-cases, inl, sym, inr, ◌/◌,
  ◌+◌, ◌%◌, none,
}

-- A text without the character.
abbrev pub lacks : ℕ → Text → Bool
lacks d s = not (any (λ c. c == d) s)

until-append : (d : ℕ) (w s : Text) → lacks d w ≡ true → until d (w ++ d ∷ s) ≡ w
unfolding until any
until-append d [] s h = ground (arith, ==_iff d d)
until-append d (c ∷ w) s h = ground (arith, until-append d w s)

after-append : (d : ℕ) (w s : Text) → lacks d w ≡ true → after d (w ++ d ∷ s) ≡ s
unfolding after any
after-append d [] s h = ground (arith, ==_iff d d)
after-append d (c ∷ w) s h = ground (arith, after-append d w s)

-- A token that strtok() finds.
abbrev pub is_token : ℕ → Text → Bool
is_token d [] = false
is_token d (c ∷ w) = lacks d (c ∷ w)

pub strtok-token : (d : ℕ) (w s : Text) → is_token d w ≡ true → strtok d (w ++ d ∷ s) ≡ some (w, s)
unfolding strtok pass_over strtok_rest any
strtok-token d [] s h = cc
strtok-token d (c ∷ w) s h = ground (arith, until-append d (c ∷ w) s, after-append d (c ∷ w) s)

fgets-line :
    (n : ℕ) (l s : Text)
    → lacks 10 l ≡ true
    → length l < n
    → fgets n (l ++ 10 ∷ s) ≡ (l ++ 10 ∷ [], s)
unfolding fgets any
fgets-line zero l s h k = elim k [ ]
fgets-line (suc n) [] s h k = refl
fgets-line (suc n) (c ∷ l) s h k = ground (arith, fgets-line n l s)

strtoul-digit :
    (c : ℕ) (s : Text)
    → is_digit c ≡ true
    → (scan_digits 0 (c ∷ s)).0 < ulong
    → strtoul (c ∷ s) ≡ (scan_digits 0 (c ∷ s)).0
unfolding strtoul is_space is_digit
strtoul-digit c s h k = ground (arith, k)

print_from-lacks : (fuel n : ℕ) → lacks 32 (print_from fuel n) ≡ true
unfolding print_from any
print_from-lacks zero n = refl
print_from-lacks (suc fuel) n = elim (Bool-cases (ltb n 10)) [
  | inl small ↦ ground arith
  | inr large ↦ rw large (
      ground (
        arith,
        print_from-lacks fuel (n / 10),
        any-append (λ c. c == 32) (print_from fuel (n / 10)) ((48 + n % 10) ∷ []),
      ))
]

print_uint-token : (n : ℕ) → is_token 32 (print_uint n) ≡ true
unfolding print_uint
print_uint-token n =
    let (c, t, e, _) = rw append-nil at (print_from-cons (suc n) n [] (omega arith)) in
    rw e (ap (lacks 32) (sym e) ∙ print_from-lacks (suc n) n)

-- A number that fits is read back.
strtoul-print : (n : ℕ) → n < ulong → strtoul (print_uint n) ≡ n
unfolding print_uint
strtoul-print n h =
    let (c, t, e, digit) = rw append-nil at (print_from-cons (suc n) n [] (omega arith)) in
    let read = rw append-nil at (scan_digits-from (suc n) n [] (omega arith)) in
    let value : (scan_digits 0 (c ∷ t)).0 ≡ n =
      ap (λ s. (scan_digits 0 s).0) (sym e)
      ∙ ap (λ r. r.0) read
      ∙ ap (λ r. r.0) (scan_digits-stop n [] tt) in
    rw e (strtoul-digit c t digit (rw value h) ∙ value)

-- A line that the buffer holds.
abbrev pub is_line : Text → Bool
is_line l = lacks 10 l && ltb (length l) 2047

abbrev pub are_lines : List Text → Bool
are_lines [] = true
are_lines (l ∷ ls) = is_line l && are_lines ls

pub length-written : (ls : List Text) → length ls ≤ length (written ls)
unfolding written
length-written [] = omega arith
length-written (l ∷ ls) = omega (arith, length-written ls, length-append l (10 ∷ written ls))

module _ (strip : Text → Text) (find : List Event → Text → Option ℕ)
    (has_topic : List Event → ℕ → Bool) (topicts : List Event → ℕ → ℕ) where
  abbrev pub load : Text → Option ℕ × List Event → Option ℕ × List Event
  load l st = load_line strip find has_topic topicts (l ++ 10 ∷ []) st

  abbrev pub load_all : List Text → Option ℕ × List Event → Option ℕ × List Event
  load_all [] st = st
  load_all (l ∷ ls) st = load_all ls (load l st)

  load_lines-step :
      (fuel : ℕ) (l s : Text) (st : Option ℕ × List Event)
      → is_line l ≡ true
      → load_lines strip find has_topic topicts (suc fuel) (l ++ 10 ∷ s) st
        ≡ load_lines strip find has_topic topicts fuel s (load l st)
  unfolding load_lines fgets
  load_lines-step fuel [] s st h = refl
  load_lines-step fuel (c ∷ l) s st h =
      rw (fgets-line 2047 (c ∷ l) s (ground arith) (ground arith)) refl

  -- The file is read line by line, on fuel for one more than the lines.
  pub load_lines-written :
      (fuel : ℕ) (ls : List Text) (st : Option ℕ × List Event)
      → are_lines ls ≡ true
      → length ls < fuel
      → load_lines strip find has_topic topicts fuel (written ls) st ≡ some (load_all ls st)
  unfolding load_lines written
  load_lines-written zero ls st h k = elim k [ ]
  load_lines-written (suc fuel) [] st h k = refl
  load_lines-written (suc fuel) (l ∷ ls) st h k =
      load_lines-step fuel l (written ls) st (ground arith)
      ∙ load_lines-written fuel ls (load l st) (ground arith) (omega (arith, k))

  load_chan-words :
      (s s₁ s₂ name modes : Text) (c : Option ℕ) (done : List Event)
      → strtok 32 s ≡ some (name, s₁)
      → strtok 10 s₁ ≡ some (modes, s₂)
      → load_chan strip find has_topic topicts s (c, done)
        ≡ some (restore_channel strip find has_topic topicts name modes done)
  unfolding load_chan
  load_chan-words s s₁ s₂ name modes c done h k = rw h (rw k refl)

  load_topic-words :
      (s s₁ s₂ s₃ setter tsstr text : Text) (c : ℕ) (done : List Event)
      → strtok 32 s ≡ some (setter, s₁)
      → strtok 32 s₁ ≡ some (tsstr, s₂)
      → strtok 10 s₂ ≡ some (text, s₃)
      → load_topic strip find has_topic topicts s (some c, done)
        ≡ some
            (some c, restore_topic strip find has_topic topicts c setter (strtoul tsstr) text done)
  unfolding load_topic
  load_topic-words s s₁ s₂ s₃ setter tsstr text c done h k m = rw h (rw k (rw m refl))

  load_ban-words :
      (s s₁ s₂ type mask : Text) (c : ℕ) (done : List Event)
      → strtok 32 s ≡ some (type, s₁)
      → strtok 10 s₁ ≡ some (mask, s₂)
      → load_ban strip find has_topic topicts s (some c, done)
        ≡ some (some c, restore_ban strip find has_topic topicts c (get_or type 0 0) mask done)
  unfolding load_ban
  load_ban-words s s₁ s₂ type mask c done h k = rw h (rw k refl)

  module _ (keeps : (w : Text) → any (λ c. ltb c 32) w ≡ false → strip w ≡ w) where
    pub load-chan :
        (c : Channel) (st : Option ℕ × List Event)
        → is_token 32 c.name ≡ true
        → is_token 10 c.modes ≡ true
        → load (chan_line c) st ≡ restore_channel strip find has_topic topicts c.name c.modes st.1
    unfolding load_line chan_line strtok pass_over strtok_rest until after load_item strcmp_eq any
    load-chan c (p, done) h k =
        let s = (c.name ++ 32 ∷ c.modes) ++ 10 ∷ [] in
        let first =
          ap (strtok 32) (append_assoc c.name (32 ∷ c.modes) (10 ∷ []))
          ∙ strtok-token 32 c.name (c.modes ++ 10 ∷ []) h in
        let second = strtok-token 10 c.modes [] k in
        ap (λ w. load_item strip find has_topic topicts w s (p, done)) (keeps (codes "chan") refl)
        ∙ ap (λ r. or_else r (p, done)) (load_chan-words s _ _ c.name c.modes p done first second)

    pub load-ban :
        (b : ℕ × Text) (c : ℕ) (done : List Event)
        → lacks 32 (b.0 ∷ []) ≡ true
        → is_token 10 b.1 ≡ true
        → load (ban_line b) (some c, done)
          ≡ (some c, restore_ban strip find has_topic topicts c b.0 b.1 done)
    unfolding load_line ban_line strtok pass_over strtok_rest until after load_item strcmp_eq any
    load-ban (type, mask) c done h k =
        let s = (type ∷ 32 ∷ mask) ++ 10 ∷ [] in
        let first = strtok-token 32 (type ∷ []) (mask ++ 10 ∷ []) h in
        let second = strtok-token 10 mask [] k in
        ap (λ w. load_item strip find has_topic topicts w s (some c, done))
          (keeps (codes "ban") refl)
        ∙ ap (λ r. or_else r (some c, done))
            (load_ban-words s _ _ (type ∷ []) mask c done first second)

    pub load-topic :
        (setter : Text) (ts : ℕ) (text : Text) (c : ℕ) (done : List Event)
        → is_token 32 setter ≡ true
        → ts < ulong
        → is_token 10 text ≡ true
        → load (topic_line setter ts text) (some c, done)
          ≡ (some c, restore_topic strip find has_topic topicts c setter ts text done)
    unfolding load_line topic_line strtok pass_over strtok_rest until after load_item strcmp_eq any
    load-topic setter ts text c done h b k =
        let stamp = 32 ∷ print_uint ts in
        let s = (setter ++ stamp ++ 32 ∷ text) ++ 10 ∷ [] in
        let first =
          ap (strtok 32) (
            append_assoc (setter ++ stamp) (32 ∷ text) (10 ∷ [])
            ∙ append_assoc setter stamp (32 ∷ text ++ 10 ∷ []))
          ∙ strtok-token 32 setter (print_uint ts ++ (32 ∷ text ++ 10 ∷ [])) h in
        let second = strtok-token 32 (print_uint ts) (text ++ 10 ∷ []) (print_uint-token ts) in
        let third = strtok-token 10 text [] k in
        ap (λ w. load_item strip find has_topic topicts w s (some c, done))
          (keeps (codes "topic") refl)
        ∙ ap (λ r. or_else r (some c, done))
            (load_topic-words s _ _ _ setter (print_uint ts) text c done first second third)
        ∙ ap (λ n. (some c, restore_topic strip find has_topic topicts c setter n text done))
            (strtoul-print ts b)

    -- After a channel that is not there, its topic and its bans are passed over.
    pub load-topic_none :
        (setter : Text) (ts : ℕ) (text : Text) (done : List Event)
        → load (topic_line setter ts text) (none, done) ≡ (none, done)
    unfolding load_line topic_line strtok pass_over strtok_rest until after load_item strcmp_eq any
        load_topic
    load-topic_none setter ts text done =
        let s = (setter ++ 32 ∷ print_uint ts ++ 32 ∷ text) ++ 10 ∷ [] in
        ap (λ w. load_item strip find has_topic topicts w s (none, done))
          (keeps (codes "topic") refl)

    pub load-ban_none :
        (b : ℕ × Text) (done : List Event) → load (ban_line b) (none, done) ≡ (none, done)
    unfolding load_line ban_line strtok pass_over strtok_rest until after load_item strcmp_eq any
        load_ban
    load-ban_none (type, mask) done =
        let s = (type ∷ 32 ∷ mask) ++ 10 ∷ [] in
        ap (λ w. load_item strip find has_topic topicts w s (none, done)) (keeps (codes "ban") refl)
