-- ===== src/Announce/Commands.antt =====
-- What the commands of AnnounceServ do to the list of requests.
use atheme_contrib_modules.Services.Lookup.{lookup, remove_absent}
use atheme_contrib_modules.Announce.{
  Request, account_drop_request, as_cmd_activate, as_cmd_reject, as_cmd_cancel, as_cmd_request,
  nick_of,
}
use atheme_contrib_modules.Services.Text.{Text}
use atheme_contrib_modules.Services.Registry.{Casemap, remove, listed}
use atheme_contrib_modules.Prelude.{
  ℕ, List, Option, Bool, length, ◌≡◌, some, not, ◌<◌, ◌&&◌, if◌then◌else◌, Option-cases, arith,
  ◌++◌, inl, leb, ◌∷◌, sym, [], Bool-cases, inr, ◌-◌, refl, take_all,
}

module _ (c : Casemap) (shown : Text → Text) where
  abbrev pub pending : List Request → Text → Option Request
  pending reqs = lookup c nick_of reqs

  pub drop-remove :
      (k : Text) (reqs : List Request)
      → (account_drop_request c shown k reqs).0 ≡ remove c nick_of k reqs
  unfolding account_drop_request
  drop-remove k reqs = elim (Option-cases (pending reqs k)) [
    | inl e ↦ rw (e, account_drop_request) (sym (remove_absent c nick_of k reqs e))
    | inr (l, e) ↦ rw (e, account_drop_request) refl
  ]

  pub activate-remove :
      (size : ℕ) (k : Text) (online : Option Text) (reqs : List Request)
      → (as_cmd_activate c shown size (some k) online reqs).0 ≡ remove c nick_of k reqs
  unfolding as_cmd_activate
  activate-remove size k online reqs = elim (Option-cases (pending reqs k)) [
    | inl e ↦ rw (e, as_cmd_activate) (sym (remove_absent c nick_of k reqs e))
    | inr (l, e) ↦ rw (e, as_cmd_activate) refl
  ]

  pub reject-remove :
      (k : Text) (online : Option Text) (reqs : List Request)
      → (as_cmd_reject c shown (some k) online reqs).0 ≡ remove c nick_of k reqs
  unfolding as_cmd_reject
  reject-remove k online reqs = elim (Option-cases (pending reqs k)) [
    | inl e ↦ rw (e, as_cmd_reject) (sym (remove_absent c nick_of k reqs e))
    | inr (l, e) ↦ rw (e, as_cmd_reject) refl
  ]

  pub cancel-remove :
      (k : Text) (reqs : List Request) → (as_cmd_cancel c shown k reqs).0 ≡ remove c nick_of k reqs
  unfolding as_cmd_cancel
  cancel-remove k reqs = elim (Option-cases (pending reqs k)) [
    | inl e ↦ rw (e, as_cmd_cancel) (sym (remove_absent c nick_of k reqs e))
    | inr (l, e) ↦ rw (e, as_cmd_cancel) refl
  ]

  -- A request that a user may make, by what is pending.
  abbrev pub is_accepted : Bool → Text → Text → Text → List Request → Bool
  is_accepted restricted target subject text reqs =
      not restricted
      && not (listed c nick_of target reqs)
      && leb (length subject) 35
      && leb (length text) 450

  abbrev pub request_of : ℕ → Text → Text → Text → Request
  request_of now target subject text = record {
    nick = target;
    subject = subject;
    announce_ts = now;
    creator = target;
    text = text;
  }

  -- The buffer holds every text that is accepted.
  pub request-add :
      (size now : ℕ) (restricted : Bool) (target subject text : Text) (reqs : List Request)
      → 450 < size
      → (as_cmd_request c shown size now restricted target (some subject) (some text) reqs).0 ≡ (
          if is_accepted restricted target subject text reqs
          then reqs ++ request_of now target subject text ∷ []
          else reqs)
  unfolding as_cmd_request
  request-add size now restricted target subject text reqs h =
      elim (Bool-cases (leb (length text) 450)) [
        | inl e ↦
            let whole = take_all (size - 1) text (ground (arith, e, h)) in rw whole (ground arith)
        | inr e ↦ ground arith
      ]
