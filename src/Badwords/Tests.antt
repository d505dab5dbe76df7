-- ===== src/Badwords/Tests.antt =====
-- The theorems about bad words at concrete inputs.
use atheme_contrib_modules.Badwords.Storage.{cleared, load-write_badword_db}
use atheme_contrib_modules.Badwords.Enforce.{on_channel_message-first}
use atheme_contrib_modules.Services.Registry.{listed}
use atheme_contrib_modules.Services.Database.{load}
use atheme_contrib_modules.Services.Fixtures.{ascii, plain, Table, table}
use atheme_contrib_modules.Badwords.Commands.{
  AllSound, cs_cmd_badwords-AllSound, cs_cmd_badwords_add, cs_cmd_badwords_del,
}
use atheme_contrib_modules.Services.Keyed.{any, find, delete}
use atheme_contrib_modules.Badwords.{
  Source, Badword, Mychan, Chanuser, valid_action, Message, cs_cmd_badwords, verb_of, mychan_find,
  entry_of, block_key, punish, on_channel_message, notice, db_h_bw, word_of, write_badword_db,
}
use atheme_contrib_modules.Services.Text.{codes, strcasecmp_eq, strcmp_eq}
use atheme_contrib_modules.Prelude.{
  List, ◌≡◌, false, some, ◌∷◌, none, true, [], refl, length, ◌+◌, map,
}

abbrev founder : Source
founder = record { name = codes "Founder"; ca_set = true; ca_aclview = true }

abbrev guest : Source
guest = record { name = codes "Guest"; ca_set = false; ca_aclview = true }

abbrev heck : Badword
heck = entry_of founder 10 (codes "#a") (codes "heck") (codes "KICK")

abbrev darn : Badword
darn = entry_of founder 20 (codes "#a") (codes "darn") (codes "warn")

abbrev chan_a : Mychan Table
chan_a = record {
  name = codes "#a";
  meta = (block_key, codes "on") ∷ [];
  badwords = heck ∷ darn ∷ [];
}

abbrev chan_b : Mychan Table
chan_b = record { name = codes "#b"; meta = []; badwords = [] }

abbrev channels : List (Mychan Table)
channels = chan_a ∷ chan_b ∷ []

abbrev voiced : Chanuser
voiced = record { is_op = false }

on_channel_message-first_example :
    on_channel_message table strcmp_eq 1024
      (some chan_a)
      (record { cu = some voiced; vhost = codes "h"; msg = some (codes "darn") })
    ≡ notice ∷ []
unfolding any strcmp_eq strcasecmp_eq punish
on_channel_message-first_example =
    on_channel_message-first table strcmp_eq 1024 chan_a voiced (codes "h") (codes "darn")
      (heck ∷ []) [] darn (notice ∷ []) refl refl refl

abbrev said_hello : Message
said_hello = record { cu = some voiced; vhost = codes "h"; msg = some (codes "hello") }

channels-AllSound : AllSound ascii founder 30 true channels
unfolding any valid_action strcmp_eq strcasecmp_eq
channels-AllSound = (
  record { unique = (refl, (refl, tt)); known = refl; placed = refl },
  (record { unique = tt; known = refl; placed = refl }, tt),
)

cs_cmd_badwords-AllSound_example :
    AllSound ascii founder 30 true
      (cs_cmd_badwords ascii founder 30 true
        (some (codes "#A"))
        (some (codes "add"))
        (some (codes "x"))
        (some (codes "quiet"))
        channels).0
cs_cmd_badwords-AllSound_example =
    cs_cmd_badwords-AllSound ascii founder 30 true (some (codes "#A")) (some (codes "add"))
      (some (codes "x")) (some (codes "quiet")) channels channels-AllSound

cs_cmd_badwords_add_example :
    let after =
      (cs_cmd_badwords ascii founder 30 true
        (some (codes "#a"))
        (some (codes "ADD"))
        (some (codes "x"))
        (some (codes "ban"))
        channels).0 in
    let l = heck ∷ darn ∷ entry_of founder 30 (codes "#a") (codes "x") (codes "ban") ∷ [] in
    (mychan_find ascii (codes "#A") after ≡ some (record chan_a { badwords = l }))
    × (listed ascii word_of (codes "X") l ≡ true)
unfolding verb_of any valid_action mychan_find find strcasecmp_eq
cs_cmd_badwords_add_example =
    cs_cmd_badwords_add ascii founder 30 true (codes "#a") (codes "ADD") (codes "x") (codes "ban")
      (codes "X") (codes "#A") channels chan_a refl refl refl refl

cs_cmd_badwords_del_example :
    let after =
      (cs_cmd_badwords ascii founder 30 true
        (some (codes "#a"))
        (some (codes "DEL"))
        (some (codes "HECK"))
        none
        channels).0 in
    (mychan_find ascii (codes "#b") after ≡ some chan_b)
    × (listed ascii word_of (codes "darn") (darn ∷ []) ≡ true)
    × (length (darn ∷ []) + 1 ≡ 2)
unfolding verb_of any delete mychan_find find strcasecmp_eq
cs_cmd_badwords_del_example =
    cs_cmd_badwords_del ascii founder 30 true (codes "#a") (codes "DEL") (codes "HECK")
      (codes "darn") (codes "#b") none channels chan_a refl refl refl channels-AllSound.0

load-write_badword_db_example :
    load
      (codes "BW")
      (db_h_bw plain ascii)
      (write_badword_db plain channels)
      (map (cleared plain ascii) channels)
    ≡ some channels
unfolding any strcmp_eq strcasecmp_eq
load-write_badword_db_example =
    load-write_badword_db plain ascii channels (refl, refl, (refl, refl, tt))
