-- ===== src/Wumpus/Tests.antt =====
-- The theorems about the game at concrete inputs.
use atheme_contrib_modules.Wumpus.Sound.Restarts.{reset-start-join}
use atheme_contrib_modules.Wumpus.Sound.{within, times, standing}
use atheme_contrib_modules.Services.Metadata.{is_some}
use atheme_contrib_modules.Wumpus.Maze.Exits.{pick_exit-returns}
use atheme_contrib_modules.Wumpus.Sound.Kept.{commands_return, rooms_agree}
use atheme_contrib_modules.Wumpus.Order.{IsDistinct, is_tuned}
use atheme_contrib_modules.Services.Keyed.{find, any, delete}
use atheme_contrib_modules.Services.Text.{codes, atoi}
use mathlib.Core.Option.{none}
use atheme_contrib_modules.Wumpus.Service.{
  cmd_join, cmd_start, cmd_look, cmd_move, cmd_shoot, cmd_resign, cmd_reset, user_deleted, join_by,
  start_by, cmd_who,
}
use atheme_contrib_modules.Wumpus.Maze.{
  start_game, init_game, build_maze, add_rooms, add_exits, first_exit, pick_exit, avoid, scatter,
  scatters, place,
}
use atheme_contrib_modules.Wumpus.{
  Game, Event, code, alter_room, room, exit_ids, set_player, look_player, distance_to_wumpus,
  distance_from, wumpus_behind, warnings, end_game, resign_players, resign_player, leave_room,
  create_player, find_player, Contents, move_wumpus, Room, e_nothing, is_player,
}
use atheme_contrib_modules.Wumpus.Service.Reach.{
  initial, Reach, Reach-IsHunt, next, starts, joins_in, begins, here,
}
use atheme_contrib_modules.Prelude.{
  ℕ, List, Option, ◌*◌, ◌+◌, [], some, none, ◌≡◌, true, refl, ◌∷◌, false, not, ◌||◌, leb, ◌&&◌,
  ◌==◌, arith, ◌<◌, length, ◌≤◌,
}

-- A die for the tests.
abbrev dice : ℕ → ℕ
dice n = 7 * n + 3

abbrev game_of : Option (Game × List Event) → Game
game_of none = initial
game_of (some (g, _)) = g

abbrev events_of : Option (Game × List Event) → List Event
events_of none = []
events_of (some (_, events)) = events

abbrev chamber : ℕ → List ℕ → Contents → List ℕ → Room
chamber id exits contents players = record {
  id = id;
  exits = exits;
  contents = contents;
  players = players;
}

-- Two users start a game of ten rooms.
abbrev gathered : Game
gathered = (join_by 2 (join_by 1 (start_by 1 (some (codes "10")) initial).0).0).0

abbrev begun : Option (Game × List Event)
begun = start_game dice 4 gathered

reached : Reach dice initial (game_of begun)
unfolding start_game init_game build_maze add_rooms add_exits first_exit pick_exit avoid scatter
    scatters place alter_room room exit_ids set_player look_player distance_to_wumpus distance_from
    wumpus_behind warnings end_game resign_players resign_player leave_room cmd_start cmd_join
    start_by join_by create_player find_player find any delete atoi code
reached =
    next
      (next
        (next (next here (starts (some 1) (some (codes "10")) _ refl)) (joins_in (some 1) _ refl))
        (joins_in (some 2) _ refl))
      (begins 4 (events_of begun) refl refl)

Reach-IsHunt_example :
    let g = game_of begun in
    IsDistinct g.players
    × (is_tuned g ≡ true)
    × ((not g.running || (leb 21 g.speed && leb 5 g.wump_hp)) ≡ true)
Reach-IsHunt_example = Reach-IsHunt dice reached

commands_return_example :
    let g = game_of begun in
    (is_some (cmd_start (some 1) none g) ≡ true)
    × (is_some (cmd_join (some 1) g) ≡ true)
    × (is_some (cmd_look (some 1) g) ≡ true)
    × (is_some (cmd_move dice (some 1) (some (codes "3")) g) ≡ true)
    × (is_some (cmd_shoot dice (some 1) (some (codes "3")) g) ≡ true)
    × (is_some (cmd_resign (some 1) g) ≡ true)
    × (is_some (cmd_who (some 1) g) ≡ true)
    × (is_some (cmd_reset (some 1) g) ≡ true)
    × (is_some (user_deleted 2 g) ≡ true)
    × (is_some (move_wumpus dice g) ≡ true)
commands_return_example = commands_return dice reached (some 1) 2 none (some (codes "3"))

abbrev room_of : Option Room → Room
room_of none = chamber 0 [] e_nothing []
room_of (some r) = r

rooms_agree_example :
    let g = game_of begun in
    let r = room_of (room 4 g) in
    (r.id ≡ 4)
    × (0 < length r.exits)
    × (within g.mazesize r.exits ≡ true)
    × (times 1 r.players ≡ standing 1 4 g.players)
    × (times 1 r.players ≤ 1)
unfolding start_game init_game build_maze add_rooms add_exits first_exit pick_exit avoid scatter
    scatters place alter_room room exit_ids set_player look_player distance_to_wumpus distance_from
    wumpus_behind warnings end_game resign_players resign_player leave_room cmd_start cmd_join
    start_by join_by create_player find_player find any delete atoi code
rooms_agree_example = rooms_agree dice {r = room_of (room 4 (game_of begun))} reached 4 1 refl refl

pick_exit-returns_example :
    (t : ℕ) × (h : Game) × (pick_exit dice 2 3 (5 ∷ []) (record initial { mazesize = 10 })
      ≡ some (t, h))
    × ((t == 3) ≡ false)
    × (any (λ n. n == t) (5 ∷ []) ≡ false)
unfolding any
pick_exit-returns_example =
    pick_exit-returns dice 2 1 3 (5 ∷ []) (record initial { mazesize = 10 }) (omega arith) refl refl

begun_runs : (game_of begun).running ≡ true
unfolding start_game init_game build_maze add_rooms add_exits first_exit pick_exit avoid scatter
    scatters place alter_room room exit_ids set_player look_player distance_to_wumpus distance_from
    wumpus_behind warnings end_game resign_players resign_player leave_room cmd_start cmd_join
    start_by join_by create_player find_player find any delete atoi code
begun_runs = refl

reset-start-join_example :
    let g = game_of begun in
    (h l k : Game) × (a b c : List Event) × (cmd_reset (some 1) g ≡ some (h, a))
    × (h.running ≡ false)
    × (cmd_start (some 1) (some (codes "20")) h ≡ some (l, b))
    × (cmd_join (some 3) l ≡ some (k, c))
    × Reach dice initial k
    × (k.starting ≡ true)
    × (k.running ≡ false)
    × (any (is_player 3) k.players ≡ true)
reset-start-join_example = reset-start-join dice reached 1 3 (some (codes "20")) begun_runs
