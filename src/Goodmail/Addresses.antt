-- ===== src/Goodmail/Addresses.antt =====
-- Which addresses may be registered with, after ADD and after DEL.
use atheme_contrib_modules.Services.Registry.{Casemap, listed, is_named, remove}
use atheme_contrib_modules.Services.Keyed.{any, find, delete, any-append}
use atheme_contrib_modules.Goodmail.{
  check_registration, Source, ns_cmd_goodmail, Goodmail, cmd_add, cmd_del, mail_of,
}
use atheme_contrib_modules.Prelude.{
  Bool, ◌≡◌, false, true, List, arith, ℕ, refl, not, ◌++◌, ◌∷◌, [], some, ◌||◌, none, ap, ◌∙◌,
}
use atheme_contrib_modules.Services.Text.{
  Text, codes, strcasecmp_eq, strcasecmp_eq_sym, strcasecmp_eq_trans,
}

abbrev pub is_add : Text → Bool
is_add s = strcasecmp_eq (codes "ADD") s

abbrev pub is_del : Text → Bool
is_del s = strcasecmp_eq (codes "DEL") s

add_del : strcasecmp_eq (codes "ADD") (codes "DEL") ≡ false
unfolding strcasecmp_eq
add_del = refl

verbs_apart : (s : Text) → is_del s ≡ true → is_add s ≡ false
verbs_apart s h = ground (
  arith,
  add_del,
  strcasecmp_eq_sym (codes "DEL") s h,
  strcasecmp_eq_trans (codes "ADD") s (codes "DEL"),
)

-- Whether a registration that no hook before refuses is let through.
abbrev pub admitted : (Text → Text → Bool) → Text → List Goodmail → Text → Bool
admitted match account l email = not (check_registration match account email l false).0

admitted-any :
    (match : Text → Text → Bool) (account email : Text) (l : List Goodmail)
    → admitted match account l email ≡ any (λ e. match e.mail email) l
unfolding check_registration
admitted-any match account email l = ground arith

admitted-last :
    (match : Text → Text → Bool) (account email : Text) (l : List Goodmail) (e : Goodmail)
    → admitted match account (l ++ e ∷ []) email
      ≡ (admitted match account l email || match e.mail email)
unfolding any
admitted-last match account email l e =
    rw (admitted-any match account email (l ++ e ∷ []), admitted-any match account email l)
      (ground (arith, any-append (λ k. match k.mail email) l (e ∷ [])))

module _ (c : Casemap) where
  -- A name that is not listed, added at the end and found again.
  found_last :
      (l : List Goodmail) (e : Goodmail)
      → listed c mail_of e.mail l ≡ false
      → (find (is_named c mail_of e.mail) (l ++ e ∷ []) ≡ some e)
        × (remove c mail_of e.mail (l ++ e ∷ []) ≡ l)
  unfolding any find delete
  found_last [] e h = ground (arith, c.same_refl e.mail)
  found_last (x ∷ l) e h = ground (arith, found_last l e)

  abbrev pub entry : Source → ℕ → Text → Text → Goodmail
  entry si now mask reason = record {
    mail = mask;
    mail_ts = now;
    creator = si.name;
    reason = reason;
  }

  add-append :
      (si : Source) (now : ℕ) (a mask reason : Text) (l : List Goodmail)
      → is_add a ≡ true
      → si.logged_in ≡ true
      → listed c mail_of mask l ≡ false
      → (ns_cmd_goodmail c si now (some a) (some mask) (some reason) l).0
        ≡ l ++ entry si now mask reason ∷ []
  unfolding ns_cmd_goodmail cmd_add
  add-append si now a mask reason l v s h = ground arith

  del-last :
      (si : Source) (now : ℕ) (d : Text) (l : List Goodmail) (e : Goodmail)
      → is_del d ≡ true
      → listed c mail_of e.mail l ≡ false
      → (ns_cmd_goodmail c si now (some d) (some e.mail) none (l ++ e ∷ [])).0 ≡ l
  unfolding ns_cmd_goodmail cmd_del
  del-last si now d l e v h =
      let (found, removed) = found_last l e h in ground (arith, found, removed, verbs_apart d v)

  -- If a source that is logged in adds a mask that is not listed, then exactly the addresses that were
  -- admitted before and those that the mask matches may be registered with; and DEL of the mask gives
  -- the list of before back, so that again just the addresses of before are admitted.
  pub add_del_admits :
      (match : Text → Text → Bool) (account email : Text) (si : Source) (now later : ℕ)
      (a d mask reason : Text) (l : List Goodmail)
      → is_add a ≡ true
      → is_del d ≡ true
      → si.logged_in ≡ true
      → listed c mail_of mask l ≡ false
      → let l₁ = (ns_cmd_goodmail c si now (some a) (some mask) (some reason) l).0 in
        let l₂ = (ns_cmd_goodmail c si later (some d) (some mask) none l₁).0 in
        (admitted match account l₁ email ≡ (admitted match account l email || match mask email))
        × (l₂ ≡ l)
        × (admitted match account l₂ email ≡ admitted match account l email)
  add_del_admits match account email si now later a d mask reason l va vd s h =
      let e = entry si now mask reason in
      let first = add-append si now a mask reason l va s h in
      let second =
        ap (λ k. (ns_cmd_goodmail c si later (some d) (some mask) none k).0) first
        ∙ del-last si later d l e vd h in
      (
        ap (λ k. admitted match account k email) first ∙ admitted-last match account email l e,
        second,
        ap (λ k. admitted match account k email) second,
      )
