-- ===== src/VhostOnReg/Hosts.antt =====
-- The host that an account gets, and that it keeps it.
use mathlib.Core.List.{append_assoc}
use atheme_contrib_modules.Services.Metadata.{Metadata}
use atheme_contrib_modules.Services.Numbers.{length-print_uint, print_uint}
use Prim.Native.Nat.{zero}
use atheme_contrib_modules.Services.Keyed.{keep}
use atheme_contrib_modules.Services.Text.{Text, strlcat, codes, strlcat_fits, strcasecmp_eq_refl}
use atheme_contrib_modules.VhostOnReg.{
  copy_valid, is_valid, pad_5, Account, numbered, usercloak, Event, user_add_host, next_counter,
  hook_user_identify,
}
use atheme_contrib_modules.Prelude.{
  ℕ, Bool, ◌≡◌, true, take, ◌∷◌, false, arith, suc, [], ◌&&◌, zero, length, List, ◌||◌, refl, ltb,
  ◌≤◌, if◌then◌else◌, ◌<◌, not, ap, Bool-cases, inl, length-append, take_all, inr, replicate, ◌-◌,
  ◌∙◌, sym, length-replicate, length-take, ◌++◌, Option, ◌+◌, some,
}

-- All characters of the name may stand in a host, and it is no longer than the room.
abbrev pub fits : ℕ → Text → Bool
fits room [] = true
fits zero (c ∷ s) = false
fits (suc room) (c ∷ s) = is_valid c && fits room s

copied : (room : ℕ) (s : Text) → (copy_valid room s).0 ≡ take room (keep is_valid s)
unfolding copy_valid keep
copied zero [] = refl
copied (suc room) [] = refl
copied zero (c ∷ s) = refl
copied (suc room) (c ∷ s) = ground (arith, copied room s, copied (suc room) s)

not_copied :
    (room : ℕ) (s : Text)
    → let r = copy_valid room s in (r.1 || ltb 0 (length r.2)) ≡ not (fits room s)
unfolding copy_valid
not_copied zero [] = refl
not_copied (suc room) [] = refl
not_copied zero (c ∷ s) = ground arith
not_copied (suc room) (c ∷ s) = ground (arith, not_copied room s, not_copied (suc room) s)

fits-take : (room : ℕ) (s : Text) → fits room s ≡ true → take room (keep is_valid s) ≡ s
unfolding keep
fits-take zero [] h = refl
fits-take (suc room) [] h = refl
fits-take zero (c ∷ s) h = cc
fits-take (suc room) (c ∷ s) h = ground (arith, fits-take room s)

fits-length : (room : ℕ) (s : Text) → fits room s ≡ true → length s ≤ room
fits-length room [] h = omega arith
fits-length zero (c ∷ s) h = cc
fits-length (suc room) (c ∷ s) h = ground (arith, fits-length room s)

take-take : {A : Type 0} (a b : ℕ) (xs : List A) → a ≤ b → take a (take b xs) ≡ take a xs
take-take zero b xs h = refl
take-take (suc a) zero xs h = elim h [ ]
take-take (suc a) (suc b) [] h = refl
take-take (suc a) (suc b) (x ∷ xs) h = ap (λ ys. x ∷ ys) (take-take a b xs (omega arith))

take_clamped :
    {A : Type 0} (a : ℕ) (xs : List A)
    → take (if ltb a (length xs) then a else length xs) xs ≡ take a xs
take_clamped a xs = elim (Bool-cases (ltb a (length xs))) [
  | inl e ↦ rw e refl
  | inr e ↦ rw e (take_all (length xs) xs (omega arith) ∙ sym (take_all a xs (ground arith)))
]

length-pad_5 : (n : ℕ) → n < 100000 → length (pad_5 n) ≡ 5
unfolding pad_5
length-pad_5 n h = omega (
  arith,
  length-print_uint n 4 h,
  length-append (replicate (5 - length (print_uint n)) 48) (print_uint n),
  length-replicate {A = ℕ} (5 - length (print_uint n)) 48,
)

-- What stands before the suffix: the name, or what of it may stand in a host, cut, and a number.
abbrev pub label : ℕ → Text → ℕ → Text
label room name counter =
    if fits room name then name else take (room - 6) (keep is_valid name) ++ 45 ∷ pad_5 counter

label-length :
    (room : ℕ) (name : Text) (counter : ℕ)
    → 9 ≤ room
    → counter < 100000
    → length (label room name counter) ≤ room
label-length room name counter h k = elim (Bool-cases (fits room name)) [
  | inl e ↦ rw e (fits-length room name e)
  | inr e ↦ rw e (
      omega (
        arith,
        h,
        length-append (take (room - 6) (keep is_valid name)) (45 ∷ pad_5 counter),
        length-take (room - 6) (keep is_valid name),
        length-pad_5 counter k,
      ))
]

abbrev pub cloak : {M : Type 0} → Metadata M → Account M → Option Text
cloak d mu = d.metadata_find usercloak mu.metadata

module _ {M : Type 0} (d : Metadata M) (hostlen : ℕ) (nickserv groups : Bool) where
  open d use {metadata_find, find-add}

  numbered-label :
      (mu : Account M) (room : ℕ) (counter : ℕ)
      → room < hostlen
      → 9 ≤ room
      → counter < 100000
      → (numbered d hostlen nickserv groups mu room (take room (keep is_valid mu.name)) counter).0
        ≡ take (room - 6) (keep is_valid mu.name) ++ 45 ∷ pad_5 counter
  unfolding numbered
  numbered-label mu room counter s h k =
      let kept = take room (keep is_valid mu.name) in
      let i = if ltb (room - 6) (length kept) then room - 6 else length kept in
      let small : i ≤ room - 6 = ground arith in
      let cut =
        take_clamped (room - 6) kept
        ∙ take-take (room - 6) room (keep is_valid mu.name) (omega arith) in
      let whole =
        take_all (hostlen - i) (45 ∷ pad_5 counter)
          (omega (arith, small, s, h, length-pad_5 counter k)) in
      ap (λ t. t ++ take (hostlen - i) (45 ∷ pad_5 counter)) cut
      ∙ ap (λ t. take (room - 6) (keep is_valid mu.name) ++ t) whole

  abbrev finish : Text → Account M → Text × ℕ × List Event → Account M × ℕ × List Event
  finish suffix mu r = (
    record mu {
      metadata =
          d.metadata_add usercloak
            (strlcat (strlcat r.0 (codes ".") (hostlen + 1)) suffix (hostlen + 1)) mu.metadata;
    },
    r.1,
    r.2,
  )

  -- The host, the counter and the notices.
  abbrev named : ℕ → Account M → ℕ → Text × ℕ × List Event
  named room mu counter = (
    label room mu.name counter,
    if fits room mu.name then counter else next_counter counter,
    if fits room mu.name then [] else (numbered d hostlen nickserv groups mu room [] counter).2,
  )

  user_add_host-named :
      (suffix : Text) (mu : Account M) (counter : ℕ)
      → length suffix + 10 ≤ hostlen
      → counter < 100000
      → user_add_host d hostlen nickserv groups suffix mu counter
        ≡ finish suffix mu (named (hostlen - 1 - length suffix) mu counter)
  unfolding user_add_host numbered
  user_add_host-named suffix mu counter h k =
      let room = hostlen - 1 - length suffix in
      let large : ltb room 9 ≡ false = ground arith in
      let flags = not_copied room mu.name in
      let kept = copied room mu.name in
      elim (Bool-cases (fits room mu.name)) [
        | inl e ↦ rw large (rw flags (rw e (rw kept (rw (fits-take room mu.name e) refl))))
        | inr e ↦ rw large (
            rw flags (
              rw e (
                rw kept (
                  ap
                    (λ t. finish suffix mu (
                      t,
                      next_counter counter,
                      (numbered d hostlen nickserv groups mu room [] counter).2,
                    ))
                    (numbered-label mu room counter (omega (arith, h)) (omega (arith, h)) k)))))
      ]

  host-length :
      (suffix name : Text) (counter : ℕ)
      → length suffix + 10 ≤ hostlen
      → counter < 100000
      → let l = label (hostlen - 1 - length suffix) name counter in
        (length l + 1 + length suffix ≤ hostlen)
        × (strlcat (strlcat l (codes ".") (hostlen + 1)) suffix (hostlen + 1) ≡ l ++ 46 ∷ suffix)
  host-length suffix name counter h k =
      let l = label (hostlen - 1 - length suffix) name counter in
      let short : length l + 1 + length suffix ≤ hostlen =
        omega (
          arith,
          h,
          label-length (hostlen - 1 - length suffix) name counter (omega (arith, h)) k,
        ) in
      let dot = strlcat_fits l (codes ".") (hostlen + 1) (omega (arith, short)) in
      let joined = length-append l (codes ".") in
      (
        short,
        ap (λ t. strlcat t suffix (hostlen + 1)) dot
            ∙ strlcat_fits (l ++ codes ".") suffix (hostlen + 1) (omega (arith, short, joined))
            ∙ append_assoc l (codes ".") suffix,
      )

  -- A login of an account that has a host.
  identify_again :
      (suffix : Option Text) (mu : Account M) (counter : ℕ) (t : Text)
      → cloak d mu ≡ some t
      → hook_user_identify d hostlen nickserv groups suffix mu counter ≡ (mu, counter, [])
  unfolding hook_user_identify
  identify_again suffix mu counter t h = rw (h, hook_user_identify) refl

  -- If the suffix leaves room for ten characters and the counter is below 100000, an account gets the
  -- host that consists of a label, a dot and the suffix and is no longer than HOSTLEN. The label is the
  -- name, if that has only letters, digits and hyphens and fits in the room; else it is those characters
  -- of the name, as far as they fit, a hyphen and five digits of the counter, which then moves on and
  -- stays below 100000. A login after that changes neither the host nor the counter.
  pub user_add_host_lem :
      (suffix : Text) (mu : Account M) (counter : ℕ)
      → length suffix + 10 ≤ hostlen
      → counter < 100000
      → let room = hostlen - 1 - length suffix in
        let host = label room mu.name counter ++ 46 ∷ suffix in
        let (after, counter₁, _) = user_add_host d hostlen nickserv groups suffix mu counter in
        (cloak d after ≡ some host)
        × (length host ≤ hostlen)
        × (counter₁ ≡ (if fits room mu.name then counter else next_counter counter))
        × (counter₁ < 100000)
        × (hook_user_identify d hostlen nickserv groups (some suffix) after counter₁
            ≡ (after, counter₁, []))
  user_add_host_lem suffix mu counter h k =
      let room = hostlen - 1 - length suffix in
      let (short, whole) = host-length suffix mu.name counter h k in
      let host = label room mu.name counter ++ 46 ∷ suffix in
      let found : (t : Text)
          → metadata_find usercloak (d.metadata_add usercloak t mu.metadata) ≡ some t =
        λ t. find-add usercloak t usercloak mu.metadata ∙ rw (strcasecmp_eq_refl usercloak) refl in
      rw (user_add_host-named suffix mu counter h k) (
        found _ ∙ ap some whole,
        omega (arith, short, length-append (label room mu.name counter) (46 ∷ suffix)),
        refl,
        ground (arith, k),
        identify_again (some suffix) _ _ _ (found _),
      )
