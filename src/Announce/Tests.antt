-- ===== src/Announce/Tests.antt =====
-- The theorems about AnnounceServ at concrete inputs.
use atheme_contrib_modules.Announce.Commands.{pending}
use atheme_contrib_modules.Services.Fixtures.{ascii}
use atheme_contrib_modules.Announce.Pending.{
  Op, request, IsKept, run, activate, run-IsKept, replay, run_refines,
}
use atheme_contrib_modules.Services.Text.{Text, codes}
use atheme_contrib_modules.Services.Keyed.{find, any}
use atheme_contrib_modules.Prelude.{List, false, ◌∷◌, [], none, arith, refl, ◌≡◌}

abbrev plain_subject : Text → Text
plain_subject s = s

-- Alice asks twice, Bob asks, and Alice's request is put out.
abbrev calls : List Op
calls =
    request 5 false (codes "Alice") (codes "Party") (codes "at nine")
    ∷ request 6 false (codes "alice") (codes "More") (codes "news")
    ∷ request 7 false (codes "Bob") (codes "Quiz") (codes "at ten")
    ∷ activate (codes "ALICE") none
    ∷ []

run_refines_example :
    pending ascii plain_subject (run ascii plain_subject 1024 calls [])
    ≡ replay ascii plain_subject 1024 calls (λ k. none)
unfolding find any
run_refines_example = run_refines ascii plain_subject 1024 calls [] (omega arith) (tt, refl)

run-IsKept_example : IsKept ascii plain_subject 1024 (run ascii plain_subject 1024 calls [])
unfolding any
run-IsKept_example = run-IsKept ascii plain_subject 1024 calls [] (omega arith) (tt, refl)
