-- ===== src/Defcon/Ignores.antt =====
-- The ignore on *@* under defcon_svsignore().
use atheme_contrib_modules.Services.Text.{codes, strcasecmp_eq_refl}
use atheme_contrib_modules.Prelude.Int.{ℤ}
use atheme_contrib_modules.Services.Keyed.{keep, any}
use atheme_contrib_modules.Prelude.{
  Bool, not, List, length, ◌++◌, ◌≡◌, ◌∷◌, Bool-cases, inl, inr, [], refl, ℕ, length-append, false,
  ◌&&◌, true, arith, if◌then◌else◌,
}
use atheme_contrib_modules.Defcon.{
  Ignore, Svsignores, delete_everyone, is_everyone, defcon_svsignore, everyone, below,
}
use mathlib.Core.List.{append_assoc}

abbrev pub not_everyone : Ignore → Bool
not_everyone e = not (is_everyone e)

everyone-is_everyone : (now : ℕ) → is_everyone (everyone now) ≡ true
everyone-is_everyone now = strcasecmp_eq_refl (codes "*@*")

module _ (svs : Svsignores) where
  -- Inside the loop: what was passed over stays, and of the rest the entries on *@* go.
  delete_everyone-keep :
      (kept rest : List Ignore)
      → (delete_everyone svs (length kept) rest (kept ++ rest)).0 ≡ kept ++ keep not_everyone rest
  unfolding delete_everyone keep
  delete_everyone-keep kept [] = refl
  delete_everyone-keep kept (e ∷ rest) = elim (Bool-cases (is_everyone e)) [
    | inl hit ↦ rw hit (rw (svs.delete-middle kept e rest) (delete_everyone-keep kept rest))
    | inr miss ↦
        rw miss (simp (append_assoc, length-append) at (delete_everyone-keep (kept ++ e ∷ []) rest))
  ]

  any-keep_none : (l : List Ignore) → any is_everyone (keep not_everyone l) ≡ false
  unfolding any keep
  any-keep_none [] = refl
  any-keep_none (e ∷ l) = ground (arith, any-keep_none l)

  any-keep_rest :
      (p : Ignore → Bool) (l : List Ignore)
      → any (λ e. not_everyone e && p e) (keep not_everyone l) ≡ any (λ e. not_everyone e && p e) l
  unfolding any keep
  any-keep_rest p [] = refl
  any-keep_rest p (e ∷ l) = ground (arith, any-keep_rest p l)

  -- After defcon_svsignore() services ignore *@* exactly at the levels 1 and 2, and every other
  -- ignore is there exactly if it was before; at those levels the list stays as it is if *@* is
  -- ignored already.
  pub defcon_svsignore_lem :
      (now : ℕ) (level : ℤ) (l : List Ignore) (p : Ignore → Bool)
      → let after = (defcon_svsignore svs now level l).0 in
        (any is_everyone after ≡ below level 3)
        × (any (λ e. not_everyone e && p e) after ≡ any (λ e. not_everyone e && p e) l)
        × ((if any is_everyone l && below level 3 then after else l) ≡ l)
  unfolding defcon_svsignore
  defcon_svsignore_lem now level l p =
      let others = λ (e : Ignore). not_everyone e && p e in
      ground (
        arith,
        delete_everyone-keep [] l,
        any-keep_none l,
        any-keep_rest p l,
        svs.any-add is_everyone (everyone now) l,
        svs.any-add others (everyone now) l,
        everyone-is_everyone now,
      )
