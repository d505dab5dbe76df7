-- ===== src/Goodmail/Storage.antt =====
-- The masks in the services database.

use mathlib.Core.List.{append-nil, append_assoc}
use atheme_contrib_modules.Services.Text.{strcmp_eq, codes}
use atheme_contrib_modules.Goodmail.{Goodmail, db_h_ge, write_row, write_gedb}
use atheme_contrib_modules.Services.Database.{Backend, load}
use atheme_contrib_modules.Prelude.{List, ◌∷◌, ◌≡◌, true, [], some, ◌++◌, ◌∙◌, ap}

module _ (b : Backend) where
  -- The masks and the creators can be held as words.
  abbrev pub HasWords : List Goodmail → Type 0
  HasWords [] = Unit {0}
  HasWords (e ∷ l) = (b.is_word e.mail ≡ true) × (b.is_word e.creator ≡ true) × HasWords l

  db_h_ge-row :
      (e : Goodmail) (l : List Goodmail)
      → b.is_word e.mail ≡ true
      → b.is_word e.creator ≡ true
      → db_h_ge b (write_row b e).1 l ≡ some (l ++ e ∷ [])
  unfolding db_h_ge write_row
  db_h_ge-row e l wm wc =
      rw (b.read_word e.mail _ wm, db_h_ge)
        (rw (b.read_time e.mail_ts _) (rw (b.read_word e.creator _ wc) (rw (b.read_str e.reason))))

  -- Reading back the rows that were written adds every mask, in order, behind those that are there, if
  -- the masks and the creators can be held as words.
  pub load-write_gedb :
      (l old : List Goodmail)
      → HasWords l
      → load (codes "GE") (db_h_ge b) (write_gedb b l) old ≡ some (old ++ l)
  unfolding load write_gedb write_row strcmp_eq
  load-write_gedb [] old w = rw append-nil
  load-write_gedb (e ∷ l) old w =
      rw (db_h_ge-row e old w.0 w.1)
        (load-write_gedb l (old ++ e ∷ []) w.2 ∙ ap some (append_assoc old (e ∷ []) l))
