-- ===== src/Dnsbl/Queries.antt =====
-- The names that are asked for, and the queries of a user.
use atheme_contrib_modules.Services.Numbers.{
  scan_digits, print_uint, Stops, print_from-cons, scan_digits-from, scan_digits-stop,
}
use atheme_contrib_modules.Services.Metadata.{is_some}
use atheme_contrib_modules.Services.Registry.{Casemap, listed}
use mathlib.Core.List.{append_assoc, append-nil}
use atheme_contrib_modules.Prelude.{
  ℕ, ◌++◌, ◌≡◌, suc, ◌∷◌, ◌+◌, [], true, arith, false, ap, some, refl, ◌∙◌, List, map,
  if◌then◌else◌, ◌||◌, not,
}
use atheme_contrib_modules.Services.Text.{is_digit, Text}
use atheme_contrib_modules.Dnsbl.{
  scan_uint, scan_ip, scan_dot, dotted, Blacklist, lookup_blacklists, check_dnsbls, Event, Query,
  initiate_blacklist_dnsquery, gethost_byname, User, Dnsbl, query_name, ip_of,
}

scan_uint-digit :
    (d : ℕ) (t : Text) → is_digit d ≡ true → scan_uint (d ∷ t) ≡ some (scan_digits 0 (d ∷ t))
unfolding scan_uint
scan_uint-digit d t h = rw h

scan_uint-print : (n : ℕ) (s : Text) → Stops s → scan_uint (print_uint n ++ s) ≡ some (n, s)
unfolding print_uint
scan_uint-print n s h =
    let (d, t, e, k) = print_from-cons (suc n) n s (omega arith) in
    let scanned = scan_digits-from (suc n) n s (omega arith) ∙ scan_digits-stop n s h in
    rw e (scan_uint-digit d t k ∙ ap some (rw e at scanned))

dot-is_digit : is_digit 46 ≡ false
unfolding is_digit
dot-is_digit = refl

scan_uint-dotted : (n : ℕ) (s : Text) → scan_uint (dotted (print_uint n) s) ≡ some (n, 46 ∷ s)
scan_uint-dotted n s = scan_uint-print n (46 ∷ s) dot-is_digit

scan_uint-last : (n : ℕ) → scan_uint (print_uint n) ≡ some (n, [])
scan_uint-last n = rw append-nil at (scan_uint-print n [] tt)

-- The four numbers of a dotted address are read back as they were printed.
pub scan_ip-print :
    (a b c d : ℕ)
    → scan_ip (dotted (print_uint a) (dotted (print_uint b) (dotted (print_uint c) (print_uint d))))
      ≡ some (a, b, c, d)
unfolding scan_ip scan_dot
scan_ip-print a b c d =
    rw (scan_uint-dotted a (dotted (print_uint b) (dotted (print_uint c) (print_uint d)))) (
      rw (scan_uint-dotted b (dotted (print_uint c) (print_uint d)))
        (rw (scan_uint-dotted c (print_uint d)) (rw (scan_uint-last d))))

-- What the loop of lookup_blacklists() does for an address whose numbers are known: the names that
-- are asked for, and the entries that the user's list of queries gets.
abbrev pub asked : ℕ → ℕ → ℕ × ℕ × ℕ × ℕ → List Blacklist → List Event
asked size query ip [] = []
asked size query ip (bl ∷ l) =
    gethost_byname (query_name size ip bl.host) query ∷ asked size (query + 1) ip l

abbrev pub pending : ℕ → List Blacklist → List Query
pending query [] = []
pending query (bl ∷ l) = record { query = query; blacklist = bl.addr } ∷ pending (query + 1) l

abbrev pub referenced : Blacklist → Blacklist
referenced bl = record bl { status = 0; refcount = bl.refcount + 1 }

initiate-asked :
    (size query : ℕ) (ip : ℕ × ℕ × ℕ × ℕ) (bl : Blacklist) (u : User)
    → scan_ip u.ip ≡ some ip
    → initiate_blacklist_dnsquery size query bl u
      ≡ some (
        record bl { refcount = bl.refcount + 1 },
        record u { queries = u.queries ++ record { query = query; blacklist = bl.addr } ∷ [] },
        gethost_byname (query_name size ip bl.host) query ∷ [],
      )
unfolding initiate_blacklist_dnsquery
initiate-asked size query ip bl u h = rw (h, initiate_blacklist_dnsquery)

lookup_blacklists-asked :
    (size query : ℕ) (ip : ℕ × ℕ × ℕ × ℕ) (l : List Blacklist) (u : User)
    → scan_ip u.ip ≡ some ip
    → lookup_blacklists size query l u
      ≡ some (
        map referenced l,
        record u { queries = u.queries ++ pending query l },
        asked size query ip l,
      )
unfolding lookup_blacklists
lookup_blacklists-asked size query ip [] u h = rw append-nil
lookup_blacklists-asked size query ip (bl ∷ l) u h =
    let q : Query = record { query = query; blacklist = bl.addr } in
    let u' : User = record u { queries = u.queries ++ q ∷ [] } in
    rw (initiate-asked size query ip (record bl { status = 0 }) u h)
      (rw (lookup_blacklists-asked size (query + 1) ip l u' h) (rw append_assoc))

-- A new user with the address a.b.c.d is looked up in every configured blacklist, under the name
-- d.c.b.a and its host, as far as that fits in the buffer; every blacklist and the user's list of
-- queries take note. No lookup is made of an internal client, of an exempt address or without an
-- action.
pub check_dnsbls-asked :
    (c : Casemap) (size query a b e f : ℕ) (d : Dnsbl) (u : User)
    → u.ip ≡ dotted (print_uint a) (dotted (print_uint b) (dotted (print_uint e) (print_uint f)))
    → check_dnsbls c size query d (some u) ≡ (
        if u.internal || not (is_some d.action) || listed c ip_of u.ip d.elist
        then some (d, some u, [])
        else some (
          record d { blacklists = map referenced d.blacklists },
          some (record u { queries = u.queries ++ pending query d.blacklists }),
          asked size query (a, b, e, f) d.blacklists,
        ))
unfolding check_dnsbls
check_dnsbls-asked c size query a b e f d u h =
    let scanned = rw (← h) at (scan_ip-print a b e f) in
    rw (lookup_blacklists-asked size query (a, b, e, f) d.blacklists u scanned, check_dnsbls)
