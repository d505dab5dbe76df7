-- ===== src/Services/Keyed.antt =====
-- The loops over a mowgli_list_t: the list is the sequence of its data pointers from head to tail,
-- mowgli_node_add links at the tail, and mowgli_node_delete unlinks a node.
use atheme_contrib_modules.Prelude.{
  ◌+◌, ◌≡◌, refl, inl, inr, Bool, true, false, ◌||◌, Option, none, some, List, [], ◌∷◌, ◌++◌, arith,
  if◌then◌else◌, length, Bool-cases,
}

module _ {ℓ} {A : Type ℓ} (p : A → Bool) where
  -- A loop that returns at the first entry for which the test holds, as a truth value, ...
  unfoldable pub any : List A → Bool
  any [] = false
  any (x ∷ xs) = p x || any xs

  -- ... as the entry, ...
  unfoldable pub find : List A → Option A
  find [] = none
  find (x ∷ xs) = if p x then some x else find xs

  -- ... and one that unlinks that entry.
  unfoldable pub delete : List A → List A
  delete [] = []
  delete (x ∷ xs) = if p x then xs else x ∷ delete xs

  -- A loop that keeps the entries for which the test holds.
  unfoldable pub keep : List A → List A
  keep [] = []
  keep (x ∷ xs) = if p x then x ∷ keep xs else keep xs

  pub any-append : (xs ys : List A) → any (xs ++ ys) ≡ (any xs || any ys)
  unfolding any
  any-append [] ys = refl
  any-append (x ∷ xs) ys = ground (arith, any-append xs ys)

  pub find-none_of_any : (xs : List A) → any xs ≡ false → find xs ≡ none
  unfolding any find
  find-none_of_any [] h = refl
  find-none_of_any (x ∷ xs) h = ground (arith, find-none_of_any xs)

  pub find-some_of_any : (xs : List A) → any xs ≡ true → (x : A) × (find xs ≡ some x) × (p x ≡ true)
  unfolding any find
  find-some_of_any [] h = cc
  find-some_of_any (x ∷ xs) h = elim (Bool-cases (p x)) [
    | inl hit ↦ (x, rw hit, hit)
    | inr miss ↦ rw miss (find-some_of_any xs (ground arith))
  ]

  pub any_of_find : (xs : List A) (x : A) → find xs ≡ some x → any xs ≡ true
  unfolding any find
  any_of_find [] x h = cc
  any_of_find (y ∷ xs) x h = ground (arith, any_of_find xs x)

  pub find-holds : (xs : List A) (x : A) → find xs ≡ some x → p x ≡ true
  unfolding find
  find-holds [] x h = cc
  find-holds (y ∷ xs) x h = ground (arith, find-holds xs x)

  pub delete_absent : (xs : List A) → any xs ≡ false → delete xs ≡ xs
  unfolding any delete
  delete_absent [] h = refl
  delete_absent (x ∷ xs) h = ground (arith, delete_absent xs)

  pub length-delete : (xs : List A) → length (delete xs) + (if any xs then 1 else 0) ≡ length xs
  unfolding any delete
  length-delete [] = refl
  length-delete (x ∷ xs) = ground (arith, length-delete xs)

  pub any-keep : (xs : List A) → any (keep xs) ≡ any xs
  unfolding any keep
  any-keep [] = refl
  any-keep (x ∷ xs) = ground (arith, any-keep xs)

  -- A search passes over entries for which the test fails.
  pub find-append : (xs ys : List A) → any xs ≡ false → find (xs ++ ys) ≡ find ys
  unfolding any find
  find-append [] ys h = refl
  find-append (x ∷ xs) ys h = ground (arith, find-append xs ys)
