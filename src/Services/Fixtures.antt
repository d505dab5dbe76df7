-- ===== src/Services/Fixtures.antt =====
-- Concrete values of what the modules take as parameters: the ASCII case mapping, and a database
-- backend that keeps the fields of a row as they are and takes a text with a space for no word.
use atheme_contrib_modules.Services.Metadata.{Metadata}
use atheme_contrib_modules.Services.Keyed.{any}
use atheme_contrib_modules.Services.Database.{Backend, Field, word, time, str}
use atheme_contrib_modules.Services.Registry.{Casemap}
use atheme_contrib_modules.Services.Text.{
  Text, strcasecmp_eq, strcasecmp_eq_refl, strcasecmp_eq_sym, strcasecmp_eq_trans,
}
use atheme_contrib_modules.Prelude.{
  List, Bool, Option, not, ◌∷◌, ℕ, ◌==◌, some, none, refl, if◌then◌else◌, ◌≡◌, [], arith,
}

abbrev pub ascii : Casemap
ascii = record {
  same = strcasecmp_eq;
  same_refl = strcasecmp_eq_refl;
  same_sym = strcasecmp_eq_sym;
  same_trans = strcasecmp_eq_trans;
}

abbrev take_word : List Field → Option (Text × List Field)
take_word (word w ∷ fs) = some (w, fs)
take_word _ = none

abbrev take_time : List Field → Option (ℕ × List Field)
take_time (time t ∷ fs) = some (t, fs)
take_time _ = none

abbrev take_str : List Field → Option (Text × List Field)
take_str (str s ∷ fs) = some (s, fs)
take_str _ = none

abbrev no_space : Text → Bool
no_space s = not (any (λ d. d == 32) s)

abbrev pub plain : Backend
plain = record {
  Line = List Field;
  store = λ fs. fs;
  is_word = no_space;
  sread_word = take_word;
  sread_time = take_time;
  sread_str = take_str;
  read_word = λ w fs h. refl;
  read_time = λ t fs. refl;
  read_str = λ s. refl;
}

-- Metadata as a table of keys and values.
abbrev pub Table : Type 0
Table = List (Text × Text)

abbrev pub table_find : Text → Table → Option Text
table_find k [] = none
table_find k ((j, v) ∷ m) = if strcasecmp_eq j k then some v else table_find k m

abbrev pub table_delete : Text → Table → Table
table_delete k [] = []
table_delete k ((j, v) ∷ m) =
    if strcasecmp_eq k j then table_delete k m else (j, v) ∷ table_delete k m

pub table_find-delete :
    (k j : Text) (m : Table)
    → table_find j (table_delete k m) ≡ (if strcasecmp_eq k j then none else table_find j m)
table_find-delete k j [] = ground arith
table_find-delete k j ((i, v) ∷ m) = ground (
  arith,
  table_find-delete k j m,
  strcasecmp_eq_trans k i j,
  strcasecmp_eq_trans i k j,
  strcasecmp_eq_trans k j i,
  strcasecmp_eq_sym k i,
  strcasecmp_eq_sym i j,
)

abbrev pub table : Metadata Table
table = record {
  metadata_find = table_find;
  metadata_add = λ k v m. (k, v) ∷ m;
  metadata_delete = table_delete;
  find-add = λ k v j m. refl;
  find-delete = table_find-delete;
}
