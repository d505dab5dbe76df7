-- ===== src/Announce/Pending.antt =====
-- AnnounceServ keeps at most one request of each account: the list refines a function from accounts
-- to requests.
use atheme_contrib_modules.Services.Lookup.{update, is_some-lookup, lookup-remove, lookup-add}
use atheme_contrib_modules.Services.Metadata.{is_some}
use atheme_contrib_modules.Announce.Commands.{
  is_accepted, request_of, pending, request-add, activate-remove, reject-remove, cancel-remove,
  drop-remove,
}
use atheme_contrib_modules.Services.Keyed.{any, delete, any-append}
use atheme_contrib_modules.Announce.{
  Request, as_cmd_request, nick_of, as_cmd_activate, as_cmd_reject, as_cmd_cancel,
  account_drop_request,
}
use atheme_contrib_modules.Services.Registry.{
  Casemap, IsUnique, remove, IsUnique-remove, IsUnique-add,
}
use atheme_contrib_modules.Services.Text.{Text}
use atheme_contrib_modules.Prelude.{
  ℕ, List, Option, Bool, ◌∷◌, leb, not, ◌≡◌, ◌<◌, if◌then◌else◌, [], some, ◌&&◌, length, true, inl,
  arith, ◌++◌, ◌⊎◌, ◌∙◌, refl, none, false, inr, ap, Bool-cases,
}

-- The calls that change the list.
pub data Op : Type 0 where
  request : ℕ → Bool → Text → Text → Text → Op
  activate reject : Text → Option Text → Op
  cancel drop : Text → Op

module _ (c : Casemap) (shown : Text → Text) (size : ℕ) where
  abbrev pub serve : Op → List Request → List Request
  serve (request now restricted target subject text) reqs =
      (as_cmd_request c shown size now restricted target (some subject) (some text) reqs).0
  serve (activate k online) reqs = (as_cmd_activate c shown size (some k) online reqs).0
  serve (reject k online) reqs = (as_cmd_reject c shown (some k) online reqs).0
  serve (cancel k) reqs = (as_cmd_cancel c shown k reqs).0
  serve (drop k) reqs = (account_drop_request c shown k reqs).0

  abbrev pub run : List Op → List Request → List Request
  run [] reqs = reqs
  run (o ∷ ops) reqs = run ops (serve o reqs)

  -- The same calls on a function from accounts to requests.
  abbrev pub replay : List Op → (Text → Option Request) → Text → Option Request
  replay [] f = f
  replay (request now restricted target subject text ∷ ops) f = replay ops (
      if not restricted
        && not (is_some (f target))
        && leb (length subject) 35
        && leb (length text) 450
      then update c nick_of target (some (request_of c shown now target subject text)) f
      else f)
  replay (activate k online ∷ ops) f = replay ops (update c nick_of k none f)
  replay (reject k online ∷ ops) f = replay ops (update c nick_of k none f)
  replay (cancel k ∷ ops) f = replay ops (update c nick_of k none f)
  replay (drop k ∷ ops) f = replay ops (update c nick_of k none f)

  -- No request is longer than REQUEST lets it be.
  abbrev pub is_short : Request → Bool
  is_short l = leb (length l.subject) 35 && leb (length l.text) 450

  abbrev pub all_short : List Request → Bool
  all_short reqs = not (any (λ l. not (is_short l)) reqs)

  all_short-remove :
      (k : Text) (reqs : List Request)
      → all_short reqs ≡ true
      → all_short (remove c nick_of k reqs) ≡ true
  unfolding any delete
  all_short-remove k [] h = refl
  all_short-remove k (l ∷ reqs) h = ground (arith, all_short-remove k reqs)

  all_short-append :
      (l : Request) (reqs : List Request)
      → all_short reqs ≡ true
      → is_short l ≡ true
      → all_short (reqs ++ l ∷ []) ≡ true
  unfolding any
  all_short-append l reqs h k =
      ground (arith, any-append (λ (r : Request). not (is_short r)) reqs (l ∷ []))

  -- A request is refused or added whole.
  request-cases :
      (now : ℕ) (restricted : Bool) (target subject text : Text) (reqs : List Request)
      → 450 < size
      → let accepted = is_accepted c shown restricted target subject text reqs in
        let after = serve (request now restricted target subject text) reqs in
        ((accepted ≡ true) × (after ≡ reqs ++ request_of c shown now target subject text ∷ []))
        ⊎ ((accepted ≡ false) × (after ≡ reqs))
  request-cases now restricted target subject text reqs h =
      let added = request-add c shown size now restricted target subject text reqs h in
      elim (Bool-cases (is_accepted c shown restricted target subject text reqs)) [
        | inl e ↦ inl (e, rw e at added)
        | inr e ↦ inr (e, rw e at added)
      ]

  -- The requests stay one for each account and short, whatever is called.
  abbrev pub IsKept : List Request → Type 0
  IsKept reqs = IsUnique c nick_of reqs × (all_short reqs ≡ true)

  remove-IsKept : (k : Text) (reqs : List Request) → IsKept reqs → IsKept (remove c nick_of k reqs)
  remove-IsKept k reqs h = (IsUnique-remove c nick_of k reqs h.0, all_short-remove k reqs h.1)

  serve-IsKept : (o : Op) (reqs : List Request) → 450 < size → IsKept reqs → IsKept (serve o reqs)
  serve-IsKept (request now restricted target subject text) reqs b h =
      elim (request-cases now restricted target subject text reqs b) [
        | inl (e, f) ↦
            let l = request_of c shown now target subject text in
            rw f (
              IsUnique-add c nick_of reqs l h.0 (ground (arith, e)),
              all_short-append l reqs h.1 (ground (arith, e)),
            )
        | inr (e, f) ↦ rw f h
      ]
  serve-IsKept (activate k online) reqs b h =
      rw (activate-remove c shown size k online reqs) (remove-IsKept k reqs h)
  serve-IsKept (reject k online) reqs b h =
      rw (reject-remove c shown k online reqs) (remove-IsKept k reqs h)
  serve-IsKept (cancel k) reqs b h = rw (cancel-remove c shown k reqs) (remove-IsKept k reqs h)
  serve-IsKept (drop k) reqs b h = rw (drop-remove c shown k reqs) (remove-IsKept k reqs h)

  -- Whatever is called, from a list with one request for each account and no text that is too long,
  -- the list stays so.
  pub run-IsKept :
      (ops : List Op) (reqs : List Request) → 450 < size → IsKept reqs → IsKept (run ops reqs)
  run-IsKept [] reqs b h = h
  run-IsKept (o ∷ ops) reqs b h = run-IsKept ops (serve o reqs) b (serve-IsKept o reqs b h)

  remove_refines :
      (k : Text) (reqs after : List Request)
      → IsKept reqs
      → after ≡ remove c nick_of k reqs
      → pending c shown after ≡ update c nick_of k none (pending c shown reqs)
  remove_refines k reqs after h e = rw e (lookup-remove c nick_of k reqs h.0)

  serve_refines :
      (o : Op) (ops : List Op) (reqs : List Request)
      → 450 < size
      → IsKept reqs
      → replay ops (pending c shown (serve o reqs)) ≡ replay (o ∷ ops) (pending c shown reqs)
  serve_refines (request now restricted target subject text) ops reqs b h =
      let found = is_some-lookup c nick_of target reqs in
      elim (request-cases now restricted target subject text reqs b) [
        | inl (e, f) ↦
            let l = request_of c shown now target subject text in
            rw f
              (rw found (rw e (ap (replay ops) (lookup-add c nick_of reqs l (ground (arith, e))))))
        | inr (e, f) ↦ rw f (rw found (rw e refl))
      ]
  serve_refines (activate k online) ops reqs b h = ap (replay ops) (
      remove_refines k reqs (serve (activate k online) reqs) h
        (activate-remove c shown size k online reqs))
  serve_refines (reject k online) ops reqs b h =
      ap (replay ops) (
        remove_refines k reqs (serve (reject k online) reqs) h
          (reject-remove c shown k online reqs))
  serve_refines (cancel k) ops reqs b h =
      ap (replay ops)
        (remove_refines k reqs (serve (cancel k) reqs) h (cancel-remove c shown k reqs))
  serve_refines (drop k) ops reqs b h =
      ap (replay ops) (remove_refines k reqs (serve (drop k) reqs) h (drop-remove c shown k reqs))

  -- From a list with one request for each account, where no subject is longer than 35 and no text longer
  -- than 450, and with BUFSIZE above 450, any sequence of calls does to the request that is found for an
  -- account what the same calls do to a function: REQUEST sets it if there is none, the account is not
  -- restricted, and the subject has at most 35 and the text at most 450 characters, with the whole
  -- text, and ACTIVATE, REJECT, CANCEL and the end of the account clear it.
  pub run_refines :
      (ops : List Op) (reqs : List Request)
      → 450 < size
      → IsKept reqs
      → pending c shown (run ops reqs) ≡ replay ops (pending c shown reqs)
  run_refines [] reqs b h = refl
  run_refines (o ∷ ops) reqs b h =
      run_refines ops (serve o reqs) b (serve-IsKept o reqs b h) ∙ serve_refines o ops reqs b h
