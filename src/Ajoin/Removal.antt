-- ===== src/Ajoin/Removal.antt =====
-- DEL of ns_cmd_ajoin() after ADD.
use atheme_contrib_modules.Ajoin.Channels.{find_added, added_cases}
use atheme_contrib_modules.Ajoin.Items.{
  is_proper, scan_item, char_at-end, removed_alone, scan_added, removed_added,
}
use atheme_contrib_modules.Services.Text.{Text, strcasecmp_eq_refl}
use atheme_contrib_modules.Ajoin.{
  cmd_del, cmd_list, Scan, autojoin, store, scan, not_listed, removed, scan_start, char_at,
  removed_from, cmd_add, added,
}
use atheme_contrib_modules.Prelude.{
  Option, ◌<◌, ◌≡◌, length, some, arith, refl, true, ◌∷◌, [], ◌∙◌, ◌==◌, false, sym, inl, inr, ◌++◌,
  ◌+◌,
}
use atheme_contrib_modules.Services.Metadata.{Metadata}
use mathlib.Core.Option.{none}

module _ {M : Type 0} (md : Metadata M) where
  -- DEL of a channel that the loop finds.
  del_found :
      (m : M) (p list : Text) (s : Scan) (r : Option Text)
      → md.metadata_find autojoin m ≡ some list
      → scan p 0 list scan_start ≡ s
      → char_at p s.j ≡ 0
      → removed_from list s ≡ r
      → cmd_del md (some p) m ≡ (store md r m, removed p ∷ [])
  unfolding cmd_del
  del_found m p list s r e f g h = rw (e, cmd_del) (rw (f, g, h) refl)

  del_unfound :
      (m : M) (p v : Text)
      → md.metadata_find autojoin m ≡ some v
      → cmd_del md (some p) m ≡ (m, not_listed p ∷ [])
      → (char_at p (scan p 0 v scan_start).j == 0) ≡ false
  unfolding cmd_del
  del_unfound m p v e h = ground (arith, e, h)

  find_stored : (r : Option Text) (m : M) → md.metadata_find autojoin (store md r m) ≡ r
  find_stored none m =
      ground (arith, md.find-delete autojoin autojoin m, strcasecmp_eq_refl autojoin)
  find_stored (some v) m = find_added md v m

  list_same :
      (m m' : M)
      → md.metadata_find autojoin m ≡ md.metadata_find autojoin m'
      → cmd_list md m ≡ cmd_list md m'
  unfolding cmd_list
  list_same m m' e = rw (e, cmd_list) refl

  -- What DEL leaves, if it is the value of before.
  undo :
      (m m₁ : M) (p : Text) (r : Option Text)
      → md.metadata_find autojoin m ≡ r
      → cmd_del md (some p) m₁ ≡ (store md r m₁, removed p ∷ [])
      → (m₂ : M) × (cmd_del md (some p) m₁ ≡ (m₂, removed p ∷ []))
        × (md.metadata_find autojoin m₂ ≡ md.metadata_find autojoin m)
        × (cmd_list md m₂ ≡ cmd_list md m)
  undo m m₁ p r e d =
      let found : md.metadata_find autojoin (store md r m₁) ≡ md.metadata_find autojoin m =
        find_stored r m₁ ∙ sym e in
      (store md r m₁, d, found, list_same (store md r m₁) m found)

  -- DEL takes back what ADD did: if DEL does not find the channel, which has no comma and is not empty,
  -- and ADD then says that it was added, DEL after it says that it was removed, and the account has the
  -- value and LIST shows the channels of before.
  pub del-add :
      (m m₁ : M) (p : Text)
      → 0 < length p
      → is_proper p ≡ true
      → cmd_del md (some p) m ≡ (m, not_listed p ∷ [])
      → cmd_add md (some p) m ≡ (m₁, added p ∷ [])
      → (m₂ : M) × (cmd_del md (some p) m₁ ≡ (m₂, removed p ∷ []))
        × (md.metadata_find autojoin m₂ ≡ md.metadata_find autojoin m)
        × (cmd_list md m₂ ≡ cmd_list md m)
  del-add m m₁ [] c h d a = elim c [ ]
  del-add m m₁ (b ∷ q) c h d a = elim (added_cases md m m₁ (b ∷ q) a) [
    | inl (e, f) ↦
        let found : md.metadata_find autojoin m₁ ≡ some (b ∷ q) = rw f (find_added md (b ∷ q) m) in
        undo m m₁ (b ∷ q) none e (
          del_found m₁ (b ∷ q) (b ∷ q)
            (record { rmlen = length (b ∷ q); itempos = 0; j = length (b ∷ q) }) none found
            (scan_item (b ∷ q) [] q b 0 0 refl h refl)
            (char_at-end (b ∷ q) (length (b ∷ q)) (omega arith)) (removed_alone (b ∷ q)))
    | inr (v, e, fresh, k, f) ↦
        let found : md.metadata_find autojoin m₁ ≡ some (v ++ 44 ∷ b ∷ q) =
          rw f (find_added md (v ++ 44 ∷ b ∷ q) (md.metadata_delete autojoin m)) in
        undo m m₁ (b ∷ q) (some v) e (
          del_found m₁ (b ∷ q) (v ++ 44 ∷ b ∷ q)
            (record { rmlen = length (b ∷ q); itempos = length v + 1; j = length (b ∷ q) }) (some v)
            found (scan_added v (b ∷ q) b q refl h (del_unfound m (b ∷ q) v e d))
            (char_at-end (b ∷ q) (length (b ∷ q)) (omega arith)) (removed_added v (b ∷ q)))
  ]
