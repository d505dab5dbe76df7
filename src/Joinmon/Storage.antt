-- ===== src/Joinmon/Storage.antt =====
-- The monitored patterns in the services database: write_jmdb and db_h_jm.
use mathlib.Core.List.{append-nil, append_assoc}
use atheme_contrib_modules.Services.Text.{strcmp_eq}
use atheme_contrib_modules.Joinmon.{
  Joinmon, db_h_jm, write_jmdb, heap, ◌∷◌, write_row, text_of, true, codes, some, [], map,
}
use atheme_contrib_modules.Prelude.{List, ◌≡◌, ◌++◌, ◌∙◌, ap}
use atheme_contrib_modules.Services.Database.{Backend, load}

-- An entry as it comes back: its reason is a copy on the heap.
abbrev pub restored : Joinmon → Joinmon
restored l = record l { reason = heap (text_of l.reason) }

module _ (b : Backend) where
  -- The texts that are written as words can be held as words.
  abbrev pub HasWords : List Joinmon → Type 0
  HasWords [] = Unit {0}
  HasWords (l ∷ ls) = (b.is_word l.user ≡ true) × (b.is_word l.creator ≡ true) × HasWords ls

  db_h_jm-row :
      (l : Joinmon) (monlist : List Joinmon)
      → b.is_word l.user ≡ true
      → b.is_word l.creator ≡ true
      → db_h_jm b (write_row b l).1 monlist ≡ some (monlist ++ restored l ∷ [])
  unfolding db_h_jm write_row
  db_h_jm-row l monlist wu wc =
      rw (b.read_word l.user _ wu, db_h_jm)
        (rw (b.read_time l.mon_ts _)
          (rw (b.read_word l.creator _ wc) (rw (b.read_str (text_of l.reason)))))

  -- Reading back the rows that were written adds every entry, in order and with its texts and time,
  -- behind those that are there, if the patterns and the creators can be held as words. No condition
  -- is put on the reasons.
  pub load-write_jmdb :
      (monlist old : List Joinmon)
      → HasWords monlist
      → load (codes "JM") (db_h_jm b) (write_jmdb b monlist) old
        ≡ some (old ++ map restored monlist)
  unfolding load write_jmdb write_row strcmp_eq
  load-write_jmdb [] old w = rw append-nil
  load-write_jmdb (l ∷ ls) old w = rw (db_h_jm-row l old w.0 w.1) (
      load-write_jmdb ls (old ++ restored l ∷ []) w.2
      ∙ ap some (append_assoc old (restored l ∷ []) (map restored ls)))
