-- ===== src/Services/Metadata.antt =====
-- The metadata of a channel or an account, which atheme keeps: a value under each key, where keys
-- that differ in case only are one key. `M` is the metadata of one object.
use atheme_contrib_modules.Services.Text.{Text, strcasecmp_eq}
use atheme_contrib_modules.Prelude.{Option, ◌≡◌, Bool, if◌then◌else◌, false, some, none, true}

pub record Metadata (M : Type 0) : Type 0 where
  pub metadata_find : Text → M → Option Text
  pub metadata_add : Text → Text → M → M
  pub metadata_delete : Text → M → M
  pub find-add :
      (k v j : Text) (m : M)
      → metadata_find j (metadata_add k v m)
        ≡ (if strcasecmp_eq k j then some v else metadata_find j m)
  pub find-delete :
      (k j : Text) (m : M)
      → metadata_find j (metadata_delete k m)
        ≡ (if strcasecmp_eq k j then none else metadata_find j m)

abbrev pub is_some {ℓ} : {A : Type ℓ} → Option A → Bool
is_some none = false
is_some (some _) = true
