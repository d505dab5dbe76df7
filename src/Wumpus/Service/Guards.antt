-- ===== src/Wumpus/Service/Guards.antt =====
-- Who may do what, and when.
use atheme_contrib_modules.Services.Text.{Text}
use atheme_contrib_modules.Services.Keyed.{any, find, find-append, find-none_of_any}
use atheme_contrib_modules.Wumpus.{
  create_player, find_player, Game, Player, is_player, notice, must_play, new_player, must_run,
}
use atheme_contrib_modules.Wumpus.Service.{
  cmd_look, cmd_move, cmd_shoot, cmd_resign, user_deleted, join_by,
}
use atheme_contrib_modules.Prelude.{
  ℕ, List, ◌≡◌, none, false, some, ◌∷◌, [], true, ◌++◌, arith, ◌∙◌, ==_iff,
}

module _ (rand : ℕ → ℕ) where
  -- A user who does not play can neither look nor move nor shoot nor resign, and the game goes on
  -- without notice of it when that user leaves the network; and whoever plays can neither move nor
  -- shoot nor resign while the game does not run.
  pub commands_refused :
      (u v : ℕ) (s : Text) (g h : Game) (p : Player)
      → find_player u g ≡ none
      → find_player v h ≡ some p
      → h.running ≡ false
      → ((cmd_look (some u) g ≡ some (notice u must_play ∷ []))
          × (cmd_move rand (some u) (some s) g ≡ some (g, notice u must_play ∷ []))
          × (cmd_shoot rand (some u) (some s) g ≡ some (g, notice u must_play ∷ []))
          × (cmd_resign (some u) g ≡ some (g, notice u must_play ∷ []))
          × (user_deleted u g ≡ some (g, [])))
        × (cmd_move rand (some v) (some s) h ≡ some (h, notice v must_run ∷ []))
        × (cmd_shoot rand (some v) (some s) h ≡ some (h, notice v must_run ∷ []))
        × (cmd_resign (some v) h ≡ some (h, notice v must_run ∷ []))
  unfolding cmd_look cmd_move cmd_shoot cmd_resign user_deleted
  commands_refused u v s g h p e f r = (
    (
      rw (e, cmd_look),
      rw (e, cmd_move),
      rw (e, cmd_shoot),
      rw (e, cmd_resign),
      rw (e, user_deleted),
    ),
    rw (f, cmd_move) (rw r),
    rw (f, cmd_shoot) (rw r),
    rw (f, cmd_resign) (rw r),
  )

find-new_player :
    (u : ℕ) (l : List Player)
    → any (is_player u) l ≡ false
    → find (is_player u) (l ++ new_player u ∷ []) ≡ some (new_player u)
unfolding find
find-new_player u l h =
    find-append (is_player u) l (new_player u ∷ []) h ∙ ground (arith, ==_iff u u)

-- A user who joins while a game gathers its players, and does not play yet, is the one new player,
-- and is found with ten arrows and thirty points of health and without a room; a second JOIN changes
-- nothing. JOIN changes nothing either once the game runs or if none was started.
pub cmd_join_once :
    (u : ℕ) (g : Game)
    → any (is_player u) g.players ≡ false
    → g.starting ≡ true
    → g.running ≡ false
    → let after = record g { players = g.players ++ new_player u ∷ [] } in
      ((join_by u g).0 ≡ after)
      × (find_player u after ≡ some (new_player u))
      × ((join_by u after).0 ≡ after)
      × ((join_by u (record g { running = true })).0 ≡ record g { running = true })
      × ((join_by u (record g { starting = false })).0 ≡ record g { starting = false })
unfolding join_by create_player find_player
cmd_join_once u g h s r =
    let found = find-new_player u g.players h in
    (
      ground (arith, find-none_of_any (is_player u) g.players h),
      found,
      ground (arith, found),
      ground arith,
      ground arith,
    )
