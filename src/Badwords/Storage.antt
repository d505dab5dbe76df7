-- ===== src/Badwords/Storage.antt =====
-- The bad words in the services database: write_badword_db and db_h_bw.
use mathlib.Core.List.{append-nil, append_assoc}
use atheme_contrib_modules.Services.Keyed.{any}
use atheme_contrib_modules.Services.Text.{strcmp_eq, codes, Text, strcmp_eq_iff}
use atheme_contrib_modules.Prelude.{
  Bool, List, ◌≡◌, [], ◌∷◌, ◌&&◌, true, some, not, false, map, arith, ◌++◌, Option, refl, ◌∙◌,
}
use atheme_contrib_modules.Services.Registry.{Casemap, listed, listed-add}
use atheme_contrib_modules.Badwords.{
  Badword, db_h_bw, write_row, Mychan, write_badword_db, add_badword, name_of,
}
use atheme_contrib_modules.Services.Database.{Backend, load, Row}

module _ (b : Backend) where
  abbrev pub is_storable : Badword → Bool
  is_storable bw =
      b.is_word bw.badword && b.is_word bw.creator && b.is_word bw.channel && b.is_word bw.action

  db_h_bw-row :
      {M : Type 0} (c : Casemap) (bw : Badword) (mclist : List (Mychan M))
      → is_storable bw ≡ true
      → db_h_bw b c (write_row b bw).1 mclist ≡ some (add_badword b c bw mclist)
  unfolding db_h_bw write_row
  db_h_bw-row c bw mclist h =
      rw (b.read_word bw.badword _ (ground arith), db_h_bw)
        (rw (b.read_time bw.add_ts _) (
          rw (b.read_word bw.creator _ (ground arith)) (
            rw (b.read_word bw.channel _ (ground arith))
              (rw (b.read_word bw.action _ (ground arith))))))

module _ {M : Type 0} (b : Backend) (c : Casemap) where
  abbrev pub cleared : Mychan M → Mychan M
  cleared mc = record mc { badwords = [] }

  -- Every entry can be stored and stands in its own channel, and no two channels have one name.
  abbrev pub IsStorable : List (Mychan M) → Type 0
  IsStorable [] = Unit {0}
  IsStorable (mc ∷ mclist) =
      (any (λ bw. not (is_storable b bw && strcmp_eq bw.channel mc.name)) mc.badwords ≡ false)
      × (listed c (name_of c) mc.name mclist ≡ false)
      × IsStorable mclist

  add_badword_elsewhere :
      (bw : Badword) (mclist : List (Mychan M))
      → listed c (name_of c) bw.channel mclist ≡ false
      → add_badword b c bw mclist ≡ mclist
  unfolding add_badword any
  add_badword_elsewhere bw [] h = refl
  add_badword_elsewhere bw (mc ∷ mclist) h = ground (arith, add_badword_elsewhere bw mclist)

  -- An entry of a channel whose name no other has goes to that channel alone.
  add_badword_there :
      (done rest : List (Mychan M)) (mc : Mychan M) (bw : Badword)
      → bw.channel ≡ mc.name
      → listed c (name_of c) mc.name done ≡ false
      → listed c (name_of c) mc.name rest ≡ false
      → add_badword b c bw (done ++ mc ∷ rest)
        ≡ done ++ record mc { badwords = mc.badwords ++ bw ∷ [] } ∷ rest
  unfolding add_badword any
  add_badword_there [] rest mc bw e hd hr =
      ground (arith, c.same_refl mc.name, add_badword_elsewhere bw rest)
  add_badword_there (m ∷ done) rest mc bw e hd hr =
      ground (arith, add_badword_there done rest mc bw e)

  abbrev handler : b.Line → List (Mychan M) → Option (List (Mychan M))
  handler = db_h_bw b c

  -- The rows of one channel.
  load-words :
      (ws acc : List Badword) (done rest : List (Mychan M)) (mc : Mychan M)
      (rows : List (Row b.Line))
      → any (λ bw. not (is_storable b bw && strcmp_eq bw.channel mc.name)) ws ≡ false
      → listed c (name_of c) mc.name done ≡ false
      → listed c (name_of c) mc.name rest ≡ false
      → load
          (codes "BW")
          handler
          (map (write_row b) ws ++ rows)
          (done ++ record mc { badwords = acc } ∷ rest)
        ≡ load (codes "BW") handler rows (done ++ record mc { badwords = acc ++ ws } ∷ rest)
  unfolding load write_row strcmp_eq any
  load-words [] acc done rest mc rows h hd hr = rw append-nil
  load-words (w ∷ ws) acc done rest mc rows h hd hr =
      let mc' : Mychan M = record mc { badwords = acc } in
      let placed : w.channel ≡ mc.name = (strcmp_eq_iff w.channel mc.name).0 (ground arith) in
      rw (db_h_bw-row b c w (done ++ mc' ∷ rest) (ground arith)) (
        rw (add_badword_there done rest mc' w placed hd hr) (
          rw append_assoc at
            (load-words ws (acc ++ w ∷ []) done rest mc rows (ground arith) hd hr)))

  abbrev Apart : List (Mychan M) → List (Mychan M) → Type 0
  Apart done [] = Unit {0}
  Apart done (mc ∷ l) = (listed c (name_of c) mc.name done ≡ false) × Apart done l

  Apart-nil : (l : List (Mychan M)) → Apart [] l
  unfolding any
  Apart-nil [] = tt
  Apart-nil (m ∷ l) = (refl, Apart-nil l)

  Apart-snoc :
      (done l : List (Mychan M)) (mc : Mychan M)
      → Apart done l
      → listed c (name_of c) mc.name l ≡ false
      → Apart (done ++ mc ∷ []) l
  unfolding any
  Apart-snoc done [] mc a h = tt
  Apart-snoc done (m ∷ l) mc a h = (
    ground (arith, a.0, listed-add c (name_of c) m.name done mc, c.same_sym mc.name m.name),
    Apart-snoc done l mc a.1 (ground arith),
  )

  listed-cleared :
      (name : Text) (l : List (Mychan M))
      → listed c (name_of c) name (map cleared l) ≡ listed c (name_of c) name l
  unfolding any
  listed-cleared name [] = refl
  listed-cleared name (m ∷ l) = ground (arith, listed-cleared name l)

  load-channels :
      (done mclist : List (Mychan M))
      → IsStorable mclist
      → Apart done mclist
      → load (codes "BW") handler (write_badword_db b mclist) (done ++ map cleared mclist)
        ≡ some (done ++ mclist)
  unfolding write_badword_db load
  load-channels done [] h a = refl
  load-channels done (mc ∷ mclist) h a =
      load-words mc.badwords [] done (map cleared mclist) mc (write_badword_db b mclist) h.0 a.0
        (rw (listed-cleared mc.name mclist) h.1)
      ∙ (simp append_assoc at
          (load-channels (done ++ mc ∷ []) mclist h.2 (Apart-snoc done mclist mc a.1 h.1)))

  -- Reading back the rows that were written into the channels without their lists gives every channel
  -- its list, in order, if every text can be held as one word, every entry names its own channel and
  -- no two channels have one name.
  pub load-write_badword_db :
      (mclist : List (Mychan M))
      → IsStorable mclist
      → load (codes "BW") (db_h_bw b c) (write_badword_db b mclist) (map cleared mclist)
        ≡ some mclist
  load-write_badword_db mclist h = load-channels [] mclist h (Apart-nil mclist)
