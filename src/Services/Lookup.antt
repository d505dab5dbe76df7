-- ===== src/Services/Lookup.antt =====
-- The entry that a loop finds by its name, in lists of named entries: what ADD and DEL do to a
-- function from names to entries.
use mathlib.Core.Path.{fun_ext}
use atheme_contrib_modules.Services.Metadata.{is_some}
use atheme_contrib_modules.Services.Keyed.{
  find, delete, any, delete_absent, find-some_of_any, find-none_of_any,
}
use atheme_contrib_modules.Services.Text.{Text}
use atheme_contrib_modules.Services.Registry.{
  Casemap, IsUnique, listed, is_named, remove, listed-remove_iff,
}
use atheme_contrib_modules.Prelude.{
  List, Option, if◌then◌else◌, some, ◌≡◌, true, false, Bool-cases, none, ◌∷◌, ◌++◌, inl, arith, [],
  sym, inr, ◌∙◌, refl, ap,
}

module _ {A : Type 0} (c : Casemap) (key : A → Text) where
  abbrev pub lookup : List A → Text → Option A
  lookup xs k = find (is_named c key k) xs

  -- A function from names to entries, changed at one name.
  abbrev pub update : Text → Option A → (Text → Option A) → Text → Option A
  update k e f j = if c.same k j then e else f j

  lookup_congr : (j k : Text) (xs : List A) → c.same j k ≡ true → lookup xs j ≡ lookup xs k
  unfolding find
  lookup_congr j k [] e = refl
  lookup_congr j k (x ∷ xs) e = ground (
    arith,
    lookup_congr j k xs e,
    c.same_trans (key x) j k,
    c.same_trans (key x) k j,
    c.same_sym j k,
  )

  lookup-remove_other :
      (j k : Text) (xs : List A) → c.same k j ≡ false → lookup (remove c key k xs) j ≡ lookup xs j
  unfolding find delete
  lookup-remove_other j k [] h = refl
  lookup-remove_other j k (x ∷ xs) h =
      ground (arith, lookup-remove_other j k xs h, c.same_sym (key x) k, c.same_trans k (key x) j)

  pub lookup-remove :
      (k : Text) (xs : List A)
      → IsUnique c key xs
      → lookup (remove c key k xs) ≡ update k none (lookup xs)
  lookup-remove k xs u = fun_ext λ j. elim (Bool-cases (c.same k j)) [
    | inl e ↦ rw e (
        find-none_of_any (is_named c key j) (remove c key k xs)
          (ground (arith, listed-remove_iff c key j k xs u)))
    | inr e ↦ rw e (lookup-remove_other j k xs e)
  ]

  lookup-append :
      (j : Text) (xs : List A) (e : A)
      → listed c key (key e) xs ≡ false
      → lookup (xs ++ e ∷ []) j ≡ (if c.same (key e) j then some e else lookup xs j)
  unfolding find any
  lookup-append j [] e h = ground arith
  lookup-append j (x ∷ xs) e h =
      ground (arith, lookup-append j xs e, c.same_sym (key e) j, c.same_trans (key x) j (key e))

  pub lookup-add :
      (xs : List A) (e : A)
      → listed c key (key e) xs ≡ false
      → lookup (xs ++ e ∷ []) ≡ update (key e) (some e) (lookup xs)
  lookup-add xs e h = fun_ext λ j. lookup-append j xs e h

  pub is_some-lookup : (k : Text) (xs : List A) → is_some (lookup xs k) ≡ listed c key k xs
  is_some-lookup k xs = elim (Bool-cases (listed c key k xs)) [
    | inl e ↦ let (x, f, _) = find-some_of_any (is_named c key k) xs e in rw f (sym e)
    | inr e ↦ rw (find-none_of_any (is_named c key k) xs e) (sym e)
  ]

  -- DEL as the modules write it: nothing is unlinked if no entry is found.
  pub remove_absent : (k : Text) (xs : List A) → lookup xs k ≡ none → remove c key k xs ≡ xs
  remove_absent k xs h =
      delete_absent (is_named c key k) xs (sym (is_some-lookup k xs) ∙ ap is_some h)
