-- ===== src/Dnsbl/Storage.antt =====
-- The exempt addresses in the services database.
use atheme_contrib_modules.Prelude.{List, ◌≡◌, some, ◌∷◌, [], refl}
use atheme_contrib_modules.Services.Text.{strcmp_eq, codes}
use atheme_contrib_modules.Dnsbl.{write_dnsbl_exempt_db, write_row, Exempt, db_h_ble}
use atheme_contrib_modules.Services.Database.{Backend, load}

module _ (b : Backend) where
  -- The rows are written with the type BW, while the handler is registered for BLE: of all that is
  -- written nothing is read back.
  pub load-write_dnsbl_exempt_db :
      (l old : List Exempt)
      → load (codes "BLE") (db_h_ble b) (write_dnsbl_exempt_db b l) old ≡ some old
  unfolding load write_dnsbl_exempt_db write_row strcmp_eq
  load-write_dnsbl_exempt_db [] old = refl
  load-write_dnsbl_exempt_db (de ∷ l) old = load-write_dnsbl_exempt_db l old
