-- ===== src/Services/Registry.antt =====
-- The lists of named entries that the modules keep (monitored patterns, exempt addresses, bad
-- words): ADD looks the name up by irccasecmp() and links a new entry at the tail, DEL unlinks the
-- first entry of that name.
use atheme_contrib_modules.Prelude.{
  ◌≡◌, refl, Bool, true, false, ◌||◌, List, [], ◌∷◌, ◌++◌, arith, ◌&&◌, if◌then◌else◌, not,
}
use atheme_contrib_modules.Services.Text.{Text}
use atheme_contrib_modules.Services.Keyed.{any, delete, any-append}

-- `!irccasecmp(s, t)`: equality up to the case mapping of the network, which atheme sets.
pub record Casemap : Type 0 where
  pub same : Text → Text → Bool
  pub same_refl : (s : Text) → same s s ≡ true
  pub same_sym : (s t : Text) → same s t ≡ true → same t s ≡ true
  pub same_trans : (s t u : Text) → same s t ≡ true → same t u ≡ true → same s u ≡ true

module _ {A : Type 0} (c : Casemap) (key : A → Text) where
  abbrev pub is_named : Text → A → Bool
  is_named k x = c.same (key x) k

  abbrev pub listed : Text → List A → Bool
  listed k = any (is_named k)

  abbrev pub remove : Text → List A → List A
  remove k = delete (is_named k)

  -- No two entries have the same name.
  abbrev pub IsUnique : List A → Type 0
  IsUnique [] = Unit {0}
  IsUnique (x ∷ xs) = (listed (key x) xs ≡ false) × IsUnique xs

  pub listed-add :
      (k : Text) (xs : List A) (e : A) → listed k (xs ++ e ∷ []) ≡ (listed k xs || c.same (key e) k)
  unfolding any
  listed-add k xs e = ground (arith, any-append (is_named k) xs (e ∷ []))

  pub IsUnique-add :
      (xs : List A) (e : A) → IsUnique xs → listed (key e) xs ≡ false → IsUnique (xs ++ e ∷ [])
  unfolding any
  IsUnique-add [] e u h = ground arith
  IsUnique-add (x ∷ xs) e u h =
      ground (arith, IsUnique-add xs e u.1, listed-add (key x) xs e, c.same_sym (key e) (key x))

  -- Entries that stay out stay out.
  pub unlisted-remove :
      (j k : Text) (xs : List A) → listed j xs ≡ false → listed j (remove k xs) ≡ false
  unfolding any delete
  unlisted-remove j k [] h = refl
  unlisted-remove j k (x ∷ xs) h = ground (arith, unlisted-remove j k xs)

  pub IsUnique-remove : (k : Text) (xs : List A) → IsUnique xs → IsUnique (remove k xs)
  unfolding any delete
  IsUnique-remove k [] u = tt
  IsUnique-remove k (x ∷ xs) u =
      ground (arith, IsUnique-remove k xs u.1, unlisted-remove (key x) k xs u.0)

  pub listed_congr : (j k : Text) (xs : List A) → c.same j k ≡ true → listed j xs ≡ listed k xs
  unfolding any
  listed_congr j k [] e = refl
  listed_congr j k (x ∷ xs) e = ground (
    arith,
    listed_congr j k xs e,
    c.same_trans (key x) j k,
    c.same_trans (key x) k j,
    c.same_sym j k,
  )

  -- In a list without duplicates a removed name is gone.
  pub listed-remove : (k : Text) (xs : List A) → IsUnique xs → listed k (remove k xs) ≡ false
  unfolding any delete
  listed-remove k [] u = refl
  listed-remove k (x ∷ xs) u = ground (arith, listed-remove k xs u.1, listed_congr (key x) k xs)

  -- Another name is listed as before.
  pub listed-remove_other :
      (j k : Text) (xs : List A) → c.same j k ≡ false → listed j (remove k xs) ≡ listed j xs
  unfolding any delete
  listed-remove_other j k [] h = refl
  listed-remove_other j k (x ∷ xs) h =
      ground (arith, listed-remove_other j k xs h, c.same_sym (key x) j, c.same_trans j (key x) k)

  -- In a list without duplicates `remove` takes out the name that it is given, and no other.
  pub listed-remove_iff :
      (j k : Text) (xs : List A)
      → IsUnique xs
      → listed j (remove k xs) ≡ (listed j xs && not (c.same k j))
  listed-remove_iff j k xs u = ground (
    arith,
    listed-remove k xs u,
    listed-remove_other j k xs,
    listed_congr k j (remove k xs),
    c.same_sym j k,
  )

  -- `add` of a name that is not there puts in that name, and no other.
  pub listed-add_iff :
      (j : Text) (xs : List A) (e : A)
      → listed j (if listed (key e) xs then xs else xs ++ e ∷ [])
        ≡ (listed j xs || c.same (key e) j)
  listed-add_iff j xs e = ground (arith, listed-add j xs e, listed_congr (key e) j xs)
