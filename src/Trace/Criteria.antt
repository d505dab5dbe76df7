-- ===== src/Trace/Criteria.antt =====
-- Reading the criteria ends.
use atheme_contrib_modules.Services.Tokens.{next_word-shorter, next_word}
use Prim.Native.Nat.{zero}
use atheme_contrib_modules.Trace.Run.{read_criteria}
use atheme_contrib_modules.Services.Text.{Text}
use atheme_contrib_modules.Trace.{
  Result, Network, Query, prepare, trace_regexp_prepare, out_of_fuel, trace_server_prepare,
  trace_glob_prepare, trace_channel_prepare, trace_nickage_prepare, trace_numchan_prepare,
  trace_identified_prepare, Criterion, ok, c_regexp, c_server, c_glob, c_channel, c_nickage,
  c_numchan, c_identified, ◌>>=◌, faulty, refused, criterion_of,
}
use atheme_contrib_modules.Prelude.{
  ℕ, Option, Bool, true, some, none, false, length, ◌<◌, ◌≡◌, suc, zero, refl, arith, ◌≤◌,
  Option-cases, inl, inr,
}

abbrev pub is_out_of_fuel : {A : Type 0} → Result A → Bool
is_out_of_fuel out_of_fuel = true
is_out_of_fuel _ = false

abbrev pub length_of : Option Text → ℕ
length_of none = 0
length_of (some s) = length s

module _ (n : Network) where
  prepare-shorter :
      (c : Criterion) (s r : Text) (q : Query n)
      → prepare n c s ≡ ok (q, some r)
      → length r ≤ length s
  unfolding prepare trace_regexp_prepare trace_server_prepare trace_glob_prepare
      trace_channel_prepare trace_nickage_prepare trace_numchan_prepare trace_identified_prepare
  prepare-shorter c_regexp s r q h = ground (arith, n.extract_shorter s r)
  prepare-shorter c_server s r q h = ground (arith, next_word-shorter s r)
  prepare-shorter c_glob s r q h = ground (arith, next_word-shorter s r)
  prepare-shorter c_channel s r q h = ground (arith, next_word-shorter s r)
  prepare-shorter c_nickage s r q h = ground (arith, next_word-shorter s r)
  prepare-shorter c_numchan s r q h = ground (arith, next_word-shorter s r)
  prepare-shorter c_identified s r q h = ground (arith, next_word-shorter s r)

  prepare-returns : (c : Criterion) (s : Text) → is_out_of_fuel (prepare n c s) ≡ false
  unfolding prepare trace_regexp_prepare trace_server_prepare trace_glob_prepare
      trace_channel_prepare trace_nickage_prepare trace_numchan_prepare trace_identified_prepare
  prepare-returns c_regexp s = refl
  prepare-returns c_server s = refl
  prepare-returns c_glob s = refl
  prepare-returns c_channel s = refl
  prepare-returns c_nickage s = ground arith
  prepare-returns c_numchan s = ground arith
  prepare-returns c_identified s = ground arith

  bind-returns :
      {A B : Type 0} (m : Result A) (f : A → Result B)
      → is_out_of_fuel m ≡ false
      → ((a : A) → m ≡ ok a → is_out_of_fuel (f a) ≡ false)
      → is_out_of_fuel (m >>= f) ≡ false
  bind-returns faulty f h k = refl
  bind-returns refused f h k = refl
  bind-returns out_of_fuel f h k = cc
  bind-returns (ok a) f h k = k a refl

  left-shorter :
      (c : Criterion) (args s : Text) (q : Query n) (left : Option Text)
      → (next_word args).1 ≡ some s
      → prepare n c s ≡ ok (q, left)
      → length_of left < length args
  left-shorter c args s q none e h = let l = next_word-shorter args s e in omega (arith, l)
  left-shorter c args s q (some r) e h =
      let l = next_word-shorter args s e in let m = prepare-shorter c s r q h in omega (arith, l, m)

  -- Reading the criteria ends on fuel for one more than the length of the parameters.
  pub read_criteria-returns :
      (fuel : ℕ) (args : Option Text)
      → length_of args < fuel
      → is_out_of_fuel (read_criteria n fuel args) ≡ false
  unfolding read_criteria
  read_criteria-returns zero args l = elim l [ ]
  read_criteria-returns (suc fuel) none l = refl
  read_criteria-returns (suc fuel) (some args) l = elim (Option-cases (next_word args).0) [
    | inl e ↦ rw (e, read_criteria) refl
    | inr (name, e) ↦ elim (Option-cases (criterion_of name)) [
      | inl f ↦ rw (e, read_criteria) (rw f refl)
      | inr (c, f) ↦ elim (Option-cases (next_word args).1) [
        | inl g ↦ rw (e, read_criteria) (rw f (rw g refl))
        | inr (s, g) ↦
            rw (e, read_criteria)
              (rw f (
                rw g (
                  bind-returns (prepare n c s) _ (prepare-returns c s) (λ (q, left) h.
                    bind-returns (read_criteria n fuel left) _
                      (let shorter = left-shorter c args s q left g h in
                        read_criteria-returns fuel left (omega (arith, l, shorter)))
                      (λ crit _. refl)))))
      ]
    ]
  ]
