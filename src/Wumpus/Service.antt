-- ===== src/Wumpus/Service.antt =====
-- The commands of the service Wumpus in src/wumpus.c, and the hook on users who go. The first argument
-- of a command is si->su, which is none, a null pointer, where the command does not come from a user.
-- No player is found for a null pointer, and each reply reads su->nick without a test: that is a fault.
pub mod Reach
pub mod Guards
use atheme_contrib_modules.Services.Database.{◌>>=◌}
use atheme_contrib_modules.Wumpus.{
  create_player, find_player, end_game, Game, Event, look_player, move_player, shoot_player,
  resign_player, notice, playing_are, already_in_progress, not_now, msg, playing, joined, ended_by,
  must_play, quit, game_started_by, which_room, must_run, timer_add_once,
}
use atheme_contrib_modules.Services.Text.{atoi, Text}
use atheme_contrib_modules.Prelude.Int.{ℤ, pos, negsuc, unsigned}
use atheme_contrib_modules.Prelude.{
  none, some, ℕ, List, Option, ◌%◌, if◌then◌else◌, ◌^◌, ◌||◌, not, ◌∷◌, [], false, map, ◌-◌, true,
  ◌++◌, ◌+◌,
}

unfoldable pub start_by : ℕ → Option Text → Game → Game × List Event
unfolding atoi
start_by u size g = if g.running || g.starting then (g, notice u already_in_progress ∷ []) else (
  record g {
    starting = true;
    wantsize = elim size [ none ↦ 100 | some s ↦ unsigned (atoi s) ];
    start_game_timer = some g.handles;
    handles = g.handles + 1;
  },
  msg (game_started_by u) ∷ timer_add_once g.handles 60 ∷ [],
)

-- Both branches read su->nick.
unfoldable pub cmd_start : Option ℕ → Option Text → Game → Option (Game × List Event)
unfolding start_by
cmd_start none size g = none
cmd_start (some u) size g = some (start_by u size g)

unfoldable pub join_by : ℕ → Game → Game × List Event
unfolding create_player
join_by u g =
    if not g.starting || g.running
    then (g, notice u not_now ∷ [])
    else let (g₁, made, events) = create_player u g in
      (g₁, events ++ (if made then msg (joined u) ∷ [] else []))

-- The refusal reads su->nick, and so does the line to the channel that a new player has joined.
unfoldable pub cmd_join : Option ℕ → Game → Option (Game × List Event)
unfolding join_by
cmd_join none g = none
cmd_join (some u) g = some (join_by u g)

unfoldable pub cmd_look : Option ℕ → Game → Option (List Event)
unfolding find_player look_player
cmd_look none g = none
cmd_look (some u) g = elim (find_player u g) [
  | none ↦ some (notice u must_play ∷ [])
  | some p ↦ if g.running then look_player p g else some (notice u not_now ∷ [])
]

module _ (rand : ℕ → ℕ) where
  unfoldable pub cmd_move : Option ℕ → Option Text → Game → Option (Game × List Event)
  unfolding find_player move_player atoi
  cmd_move none id g = none
  cmd_move (some u) id g = elim (find_player u g) [
    | none ↦ some (g, notice u must_play ∷ [])
    | some p ↦ elim id [
      | none ↦ some (g, notice u which_room ∷ [])
      | some s ↦
          if g.running then move_player rand p (atoi s) g else some (g, notice u must_run ∷ [])
    ]
  ]

  unfoldable pub cmd_shoot : Option ℕ → Option Text → Game → Option (Game × List Event)
  unfolding find_player shoot_player atoi
  cmd_shoot none id g = none
  cmd_shoot (some u) id g = elim (find_player u g) [
    | none ↦ some (g, notice u must_play ∷ [])
    | some p ↦ elim id [
      | none ↦ some (g, notice u which_room ∷ [])
      | some s ↦
          if g.running then shoot_player rand p (atoi s) g else some (g, notice u must_run ∷ [])
    ]
  ]

unfoldable pub cmd_resign : Option ℕ → Game → Option (Game × List Event)
unfolding find_player resign_player
cmd_resign none g = none
cmd_resign (some u) g = elim (find_player u g) [
  | none ↦ some (g, notice u must_play ∷ [])
  | some p ↦
      if g.running
      then (do g₁ ← resign_player p g; some (g₁, msg (quit u) ∷ []))
      else some (g, notice u must_run ∷ [])
]

unfoldable pub cmd_reset : Option ℕ → Game → Option (Game × List Event)
unfolding end_game
cmd_reset none g = if g.running then none else some (g, [])
cmd_reset (some u) g =
    if g.running
    then (do
      (g₁, events) ← end_game g
      some (record g₁ { running = false; starting = false }, msg (ended_by u) ∷ events))
    else some (g, [])

unfoldable pub cmd_who : Option ℕ → Game → Option (List Event)
cmd_who none g = none
cmd_who (some u) g = some (notice u playing_are ∷ map (λ p. notice u (playing p.u)) g.players)

unfoldable pub user_deleted : ℕ → Game → Option (Game × List Event)
unfolding find_player resign_player
user_deleted u g = elim (find_player u g) [
  | none ↦ some (g, [])
  | some p ↦ do g₁ ← resign_player p g; some (g₁, msg (quit u) ∷ [])
]
