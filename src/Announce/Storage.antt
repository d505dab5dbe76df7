-- ===== src/Announce/Storage.antt =====
-- The requests in the services database.
use mathlib.Core.List.{append-nil, append_assoc}
use atheme_contrib_modules.Services.Text.{strcmp_eq, codes}
use atheme_contrib_modules.Announce.{Request, db_h_ar, write_row, write_asreqdb}
use atheme_contrib_modules.Services.Database.{Backend, load}
use atheme_contrib_modules.Prelude.{List, ◌∷◌, ◌≡◌, true, [], some, ◌++◌, ◌∙◌, ap}

module _ (b : Backend) where
  -- The names and the subjects can be held as words.
  abbrev pub HasWords : List Request → Type 0
  HasWords [] = Unit {0}
  HasWords (l ∷ reqs) =
      (b.is_word l.nick ≡ true)
      × (b.is_word l.subject ≡ true)
      × (b.is_word l.creator ≡ true)
      × HasWords reqs

  db_h_ar-row :
      (l : Request) (reqs : List Request)
      → b.is_word l.nick ≡ true
      → b.is_word l.subject ≡ true
      → b.is_word l.creator ≡ true
      → db_h_ar b (write_row b l).1 reqs ≡ some (reqs ++ l ∷ [])
  unfolding db_h_ar write_row
  db_h_ar-row l reqs wn ws wc =
      rw (b.read_word l.nick _ wn, db_h_ar)
        (rw (b.read_word l.subject _ ws) (
          rw (b.read_time l.announce_ts _)
            (rw (b.read_word l.creator _ wc) (rw (b.read_str l.text)))))

  -- Reading back the rows that were written adds every request, in order, behind those that are
  -- there, if the names and the subjects can be held as words.
  pub load-write_asreqdb :
      (reqs old : List Request)
      → HasWords reqs
      → load (codes "AR") (db_h_ar b) (write_asreqdb b reqs) old ≡ some (old ++ reqs)
  unfolding load write_asreqdb write_row strcmp_eq
  load-write_asreqdb [] old w = rw append-nil
  load-write_asreqdb (l ∷ reqs) old w =
      rw (db_h_ar-row l old w.0 w.1 w.2)
        (load-write_asreqdb reqs (old ++ l ∷ []) w.3 ∙ ap some (append_assoc old (l ∷ []) reqs))
