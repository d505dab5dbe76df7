-- ===== src/Wumpus/Maze.antt =====
-- build_maze(), init_game() and start_game() of src/wumpus.c: the maze and the start of a game.
-- The search for an exit that does not lead back repeats until rand() gives one: `fuel` bounds its
-- rounds, and `none` stands for a search that needs more.
use Prim.Native.Nat.{zero}
pub mod Exits
pub mod Start
use atheme_contrib_modules.Services.Database.{◌>>=◌}
use atheme_contrib_modules.Services.Keyed.{any}
use atheme_contrib_modules.Wumpus.{
  Game, alter_room, Room, Contents, end_game, room, set_player, Event, drawn, exit_ids, e_nothing,
  look_player, filled, Player, with_timer, msg, e_wumpus, not_enough, e_pit, started_running,
  e_bats, maze_failed, e_arrows, e_crystalball,
}
use atheme_contrib_modules.Prelude.{
  ℕ, List, Option, Bool, ◌∷◌, none, [], some, ltb, if◌then◌else◌, ◌%◌, suc, length, false, ◌==◌,
  zero, replicate, ◌++◌, ◌+◌, true, leb, not,
}

-- The loop over the exits that are there: a number that one of them has becomes the room's own.
unfoldable pub avoid : ℕ → List ℕ → ℕ → ℕ
avoid self [] t = t
avoid self (n ∷ ids) t = avoid self ids (if n == t then self else t)

module _ (rand : ℕ → ℕ) where
  unfoldable pub pick_exit : ℕ → ℕ → List ℕ → Game → Option (ℕ × Game)
  unfolding avoid
  pick_exit zero self ids g = none
  pick_exit (suc fuel) self ids g =
      let t = avoid self ids (rand g.draws % g.mazesize) in
      let rest = pick_exit fuel self ids (drawn g) in if t == self then rest else some (t, drawn g)

  -- The first number is taken as it comes, if it is not the room's own.
  unfoldable pub first_exit : ℕ → ℕ → List ℕ → Game → Option (ℕ × Game)
  unfolding pick_exit
  first_exit fuel self ids g =
      let t = rand g.draws % g.mazesize in
      let rest = pick_exit fuel self ids (drawn g) in if t == self then rest else some (t, drawn g)

  unfoldable pub add_exits : ℕ → ℕ → ℕ → Game → Option Game
  unfolding first_exit alter_room room exit_ids
  add_exits zero fuel self g = some g
  add_exits (suc j) fuel self g = do
    r ← room self g
    ids ← exit_ids g r.exits
    (t, g₁) ← first_exit fuel self ids g
    g₂ ← alter_room self (λ r'. record r' { exits = r'.exits ++ t ∷ [] }) g₁
    add_exits j fuel self g₂

  abbrev pub blank : Room
  blank = record { id = 0; exits = []; contents = e_nothing; players = [] }

  -- The rooms from `i` on, `left` of them. Rooms that come later still have the number 0.
  unfoldable pub add_rooms : ℕ → ℕ → ℕ → Game → Option Game
  unfolding add_exits alter_room
  add_rooms zero fuel i g = some g
  add_rooms (suc left) fuel i g = do
    g₁ ← alter_room i (λ r. record blank { id = i }) g
    g₂ ← add_exits 3 fuel i g₁
    add_rooms left fuel (i + 1) g₂

  -- One pass that puts `e` into each room with a chance of one in `odds`.
  unfoldable pub scatter : Contents → ℕ → ℕ → ℕ → Game → Option Game
  unfolding alter_room
  scatter e odds zero i g = some g
  scatter e odds (suc left) i g =
      if rand g.draws % odds == 0
      then (do g₁ ← alter_room i (filled e) (drawn g); scatter e odds left (i + 1) g₁)
      else scatter e odds left (i + 1) (drawn g)

  unfoldable pub scatters : ℕ → Contents → ℕ → ℕ → Game → Option Game
  unfolding scatter
  scatters zero e odds size g = some g
  scatters (suc passes) e odds size g = do
    g₁ ← scatter e odds size 0 g
    scatters passes e odds size g₁

  abbrev is_short : Room → Bool
  is_short r = ltb (length r.exits) 3

  unfoldable pub build_maze : ℕ → ℕ → Game → Option (Game × Bool)
  unfolding add_rooms scatter scatters alter_room any
  build_maze fuel size g = if ltb size 10 then some (g, false) else do
    let allocated = record g { mazesize = size; rmemctx = some (replicate size blank) }
    g₁ ← add_rooms size fuel 0 allocated
    let w = rand g₁.draws % size
    g₂ ← alter_room w (filled e_wumpus) (record (drawn g₁) { wumpus = some w })
    g₃ ← scatter e_pit 84 size 0 g₂
    g₄ ← scatters 2 e_bats 42 size g₃
    g₅ ← scatters 3 e_arrows 42 size g₄
    g₆ ← alter_room (rand g₅.draws % size) (filled e_crystalball) (drawn g₅)
    rooms ← g₆.rmemctx
    some (g₆, not (any is_short rooms))

  -- The loop that places the players.
  unfoldable pub place : List Player → Game → Option (Game × List Event)
  unfolding alter_room set_player look_player
  place [] g = some (g, [])
  place (p ∷ l) g = do
    let i = rand g.draws % g.mazesize
    let p' = record p { location = some i }
    g₁ ←
        alter_room i (λ r. record r { players = r.players ++ p.u ∷ [] })
          (record (drawn g) { players = set_player p' g.players })
    seen ← look_player p' g₁
    (g₂, events) ← place l g₁
    some (g₂, seen ++ events)

  unfoldable pub init_game : ℕ → ℕ → Game → Option (Game × List Event)
  unfolding build_maze place end_game
  init_game fuel size g = do
    (g₁, built) ← build_maze fuel size g
    if built
        then (do
          (g₂, events) ← place g₁.players g₁
          let (g₃, added) = with_timer 60 g₂
          some (
            record g₃ { running = true; speed = 60; wump_hp = 70; start_game_timer = none },
            events ++ added ++ msg started_running ∷ [],
          ))
        else do (g₂, events) ← end_game g₁; some (g₂, msg maze_failed ∷ events)

  unfoldable pub start_game : ℕ → Game → Option (Game × List Event)
  unfolding init_game
  start_game fuel g =
      let g₁ = record g { starting = false } in
      if ltb (length g.players) 2
      then some (g₁, msg not_enough ∷ [])
      else let size = if leb 300 g.wantsize then 300 else g.wantsize in
        init_game fuel size (record g₁ { wantsize = size })
