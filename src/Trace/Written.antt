-- ===== src/Trace/Written.antt =====
-- Criteria as they are written are read.
use mathlib.Core.List.{append-nil}
use Prim.Native.Nat.{zero}
use mathlib.Core.Bool.{false}
use atheme_contrib_modules.Services.Tokens.{
  next_word-append, is_word, nonempty, next_word, next_word-last,
}
use atheme_contrib_modules.Prelude.Int.{unsigned}
use atheme_contrib_modules.Trace.Run.{read_criteria}
use atheme_contrib_modules.Trace.Operators.{print_operator, is_operand, read-print_operator}
use atheme_contrib_modules.Services.Keyed.{any}
use atheme_contrib_modules.Trace.{
  Criterion, criterion_of, Network, c_server, Query, prepare, c_glob, server, trace_server_prepare,
  c_channel, glob, trace_glob_prepare, c_nickage, channel, trace_channel_prepare, ok, c_numchan,
  nickage, trace_nickage_prepare, c_identified, trace_numchan_prepare, numchan,
  trace_identified_prepare, identified, read_comparison_operator,
}
use atheme_contrib_modules.Services.Text.{Text, codes, strcasecmp_eq, atoi}
use atheme_contrib_modules.Prelude.{
  ℕ, List, Option, Bool, [], none, true, ◌≡◌, some, ◌∷◌, length, ◌++◌, ◌<◌, if◌then◌else◌, ◌&&◌,
  refl, map, suc, arith, ◌∙◌, ltb, ap, false, zero, ltb→lt,
}

-- A criterion as it is written, except for a regular expression.
pub data Spec : Type 0 where
  s_server s_glob s_channel : Text → Spec
  s_nickage s_numchan : ℕ → Text → Spec
  s_identified : Bool → Spec

abbrev pub keyword : Spec → Text
keyword (s_server s) = codes "SERVER"
keyword (s_glob s) = codes "GLOB"
keyword (s_channel s) = codes "CHANNEL"
keyword (s_nickage c s) = codes "NICKAGE"
keyword (s_numchan c s) = codes "NUMCHAN"
keyword (s_identified b) = codes "IDENTIFIED"

abbrev pub operand : Spec → Text
operand (s_server s) = s
operand (s_glob s) = s
operand (s_channel s) = s
operand (s_nickage c s) = print_operator c ++ s
operand (s_numchan c s) = print_operator c ++ s
operand (s_identified b) = if b then codes "yes" else codes "no"

-- Words that are no operators, and operators that there are.
abbrev pub is_printable : Spec → Bool
is_printable (s_server s) = is_word s
is_printable (s_glob s) = is_word s
is_printable (s_channel s) = is_word s
is_printable (s_nickage c s) = ltb c 5 && is_operand s
is_printable (s_numchan c s) = ltb c 5 && is_operand s
is_printable (s_identified b) = true

abbrev pub spaced : Option Text → Text
spaced none = []
spaced (some s) = 32 ∷ s

abbrev pub print_criteria : List Spec → Option Text
print_criteria [] = none
print_criteria (x ∷ l) = some (keyword x ++ 32 ∷ (operand x ++ spaced (print_criteria l)))

abbrev kind : Spec → Criterion
kind (s_server s) = c_server
kind (s_glob s) = c_glob
kind (s_channel s) = c_channel
kind (s_nickage c s) = c_nickage
kind (s_numchan c s) = c_numchan
kind (s_identified b) = c_identified

criterion_of-keyword : (x : Spec) → criterion_of (keyword x) ≡ some (kind x)
unfolding criterion_of strcasecmp_eq
criterion_of-keyword (s_server s) = refl
criterion_of-keyword (s_glob s) = refl
criterion_of-keyword (s_channel s) = refl
criterion_of-keyword (s_nickage c s) = refl
criterion_of-keyword (s_numchan c s) = refl
criterion_of-keyword (s_identified b) = refl

keyword-is_word : (x : Spec) → is_word (keyword x) ≡ true
unfolding any
keyword-is_word (s_server s) = refl
keyword-is_word (s_glob s) = refl
keyword-is_word (s_channel s) = refl
keyword-is_word (s_nickage c s) = refl
keyword-is_word (s_numchan c s) = refl
keyword-is_word (s_identified b) = refl

operator-is_word : (c : ℕ) (s : Text) → is_operand s ≡ true → is_word (print_operator c ++ s) ≡ true
unfolding any
operator-is_word c [] h = cc
operator-is_word c (d ∷ s) h = ground arith

operand-is_word : (x : Spec) → is_printable x ≡ true → is_word (operand x) ≡ true
unfolding any
operand-is_word (s_server s) h = h
operand-is_word (s_glob s) h = h
operand-is_word (s_channel s) h = h
operand-is_word (s_nickage c s) h = operator-is_word c s (ground arith)
operand-is_word (s_numchan c s) h = operator-is_word c s (ground arith)
operand-is_word (s_identified true) h = refl
operand-is_word (s_identified false) h = refl

nonempty-append : (w s : Text) → is_word w ≡ true → nonempty (w ++ s) ≡ some (w ++ s)
nonempty-append [] s h = cc
nonempty-append (c ∷ w) s h = refl

-- A word before the criteria that follow.
next_word-spaced :
    (w : Text) (l : List Spec)
    → is_word w ≡ true
    → next_word (w ++ spaced (print_criteria l)) ≡ (some w, print_criteria l)
next_word-spaced w [] h = rw append-nil (next_word-last w h)
next_word-spaced w (x ∷ l) h =
    let rest = operand x ++ spaced (print_criteria l) in
    next_word-append w (keyword x ++ 32 ∷ rest) h
    ∙ ap (λ o. (some w, o)) (nonempty-append (keyword x) (32 ∷ rest) (keyword-is_word x))

rest-spaced :
    (w : Text) (l : List Spec)
    → is_word w ≡ true
    → (next_word (w ++ spaced (print_criteria l))).1 ≡ print_criteria l
rest-spaced w l h = ap (λ p. p.1) (next_word-spaced w l h)

module _ (n : Network) where
  abbrev pub query_of : Spec → Query n
  query_of (s_server s) = server (n.server_find (some s))
  query_of (s_glob s) = glob (some s)
  query_of (s_channel s) = channel (n.channel_find (some s))
  query_of (s_nickage c s) = nickage c (atoi s)
  query_of (s_numchan c s) = numchan c (unsigned (atoi s))
  query_of (s_identified b) = identified b

  prepare-nickage :
      (t s : Text) (c : ℕ) (l : List Spec)
      → is_word t ≡ true
      → read_comparison_operator t 2 ≡ (c, s)
      → prepare n c_nickage (t ++ spaced (print_criteria l))
        ≡ ok (nickage c (atoi s), print_criteria l)
  unfolding prepare trace_nickage_prepare
  prepare-nickage t s c l w e =
      rw (next_word-spaced t l w, trace_nickage_prepare) (rw e (rw (rest-spaced t l w) refl))

  prepare-numchan :
      (t s : Text) (c : ℕ) (l : List Spec)
      → is_word t ≡ true
      → read_comparison_operator t 0 ≡ (c, s)
      → prepare n c_numchan (t ++ spaced (print_criteria l))
        ≡ ok (numchan c (unsigned (atoi s)), print_criteria l)
  unfolding prepare trace_numchan_prepare
  prepare-numchan t s c l w e =
      rw (next_word-spaced t l w, trace_numchan_prepare) (rw e (rw (rest-spaced t l w) refl))

  prepare-written :
      (x : Spec) (l : List Spec)
      → is_printable x ≡ true
      → prepare n (kind x) (operand x ++ spaced (print_criteria l))
        ≡ ok (query_of x, print_criteria l)
  unfolding prepare trace_server_prepare trace_glob_prepare trace_channel_prepare
      trace_identified_prepare strcasecmp_eq
  prepare-written (s_server s) l h = rw (next_word-spaced s l h)
  prepare-written (s_glob s) l h = rw (next_word-spaced s l h)
  prepare-written (s_channel s) l h = rw (next_word-spaced s l h)
  prepare-written (s_nickage c s) l h =
      prepare-nickage (print_operator c ++ s) s c l (operand-is_word (s_nickage c s) h)
        (read-print_operator c 2 s (ltb→lt c 5 (ground arith)) (ground arith)).0
  prepare-written (s_numchan c s) l h =
      prepare-numchan (print_operator c ++ s) s c l (operand-is_word (s_numchan c s) h)
        (read-print_operator c 0 s (ltb→lt c 5 (ground arith)) (ground arith)).0
  prepare-written (s_identified true) l h =
      let o = operand-is_word (s_identified true) refl in
      rw (next_word-spaced (codes "yes") l o, trace_identified_prepare)
        (rw (rest-spaced (codes "yes") l o) refl)
  prepare-written (s_identified false) l h =
      let o = operand-is_word (s_identified false) refl in
      rw (next_word-spaced (codes "no") l o, trace_identified_prepare)
        (rw (rest-spaced (codes "no") l o) refl)

  abbrev pub all_printable : List Spec → Bool
  all_printable [] = true
  all_printable (x ∷ l) = is_printable x && all_printable l

  -- Criteria that are written one after the other, with a space between two words, are read as
  -- those criteria, in order: the names of servers and channels are looked up, an operator before a
  -- number is the comparison, and the numbers are what atoi() makes of them.
  pub read-print_criteria :
      (fuel : ℕ) (l : List Spec)
      → length l < fuel
      → all_printable l ≡ true
      → read_criteria n fuel (print_criteria l) ≡ ok (map query_of l)
  unfolding read_criteria
  read-print_criteria zero l b h = elim b [ ]
  read-print_criteria (suc fuel) [] b h = refl
  read-print_criteria (suc fuel) (x ∷ l) b h =
      let p : is_printable x ≡ true = ground arith in
      let ps : all_printable l ≡ true = ground arith in
      let operands = operand x ++ spaced (print_criteria l) in
      let first =
        next_word-append (keyword x) operands (keyword-is_word x)
        ∙ ap (λ o. (some (keyword x), o))
            (nonempty-append (operand x) (spaced (print_criteria l)) (operand-is_word x p)) in
      let cmd : (next_word (keyword x ++ 32 ∷ operands)).0 ≡ some (keyword x) =
        ap (λ p. p.0) first in
      let rest : (next_word (keyword x ++ 32 ∷ operands)).1 ≡ some operands = ap (λ p. p.1) first in
      rw (cmd, read_criteria)
        (rw (criterion_of-keyword x) (
          rw rest (
            rw (prepare-written x l p)
              (rw (read-print_criteria fuel l (omega (arith, b)) ps) refl))))
