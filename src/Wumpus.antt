-- ===== src/Wumpus.antt =====
-- src/wumpus.c: the game Hunt the Wumpus. The state is `wumpus`, the game_t. A pointer into rmemctx is
-- the index of the room; a player_t is known by its user, of which there is one at most, and a user by
-- a number. A step that follows a null pointer or leaves rmemctx is a fault, `none`. The values of
-- rand() are a parameter, and `draws` counts its calls; `handles` is the handle of the next timer.
-- Lines of the debug log are left out.
pub mod Maze
mod Tests
pub mod Rooms
pub mod Moves
pub mod Order
pub mod Sound
pub mod Service
use atheme_contrib_modules.Services.Keyed.{find, any, delete}
use atheme_contrib_modules.Services.Database.{◌>>=◌}
use atheme_contrib_modules.Prelude.{
  ℕ, List, Option, Bool, ◌==◌, ◌∷◌, some, none, [], false, get_elem?, set, if◌then◌else◌, true,
  ◌++◌, map, length, ltb, ◌+◌, ◌%◌, ◌&&◌, not, leb, ◌-◌,
}
use atheme_contrib_modules.Prelude.Int.{ℤ, pos, negsuc, pos_part}

pub data Contents : Type 0 where
  e_nothing e_wumpus e_pit e_bats e_arrows e_crystalball : Contents

pub code : Contents → ℕ
code e_nothing = 0
code e_wumpus = 1
code e_pit = 2
code e_bats = 3
code e_arrows = 4
code e_crystalball = 5

pub record Room : Type 0 where
  pub id : ℕ
  pub exits : List ℕ
  pub contents : Contents
  pub players : List ℕ

pub record Player : Type 0 where
  pub u : ℕ
  pub location : Option ℕ
  pub arrows : ℕ
  pub hp : ℕ
  pub has_moved : Bool

-- `wumpus` is `none` for the code's -1.
pub record Game : Type 0 where
  pub wumpus : Option ℕ
  pub mazesize : ℕ
  pub players : List Player
  pub running : Bool
  pub starting : Bool
  pub rmemctx : Option (List Room)
  pub wump_hp : ℕ
  pub speed : ℕ
  pub wantsize : ℕ
  pub move_timer : Option ℕ
  pub start_game_timer : Option ℕ
  pub draws : ℕ
  pub handles : ℕ

pub data Note : Type 0 where
  already_playing already_in_progress not_now must_play must_run which_room : Note
  in_room can_move_to cannot_reach cannot_shoot_into : ℤ → Note
  smell_wumpus feel_draft hear_bats smell_humans : Note
  no_arrows only_adjacent shoot_at_nothing hit_something killed_wumpus shrugs_it_off miss : Note
  hit_from shot_at_from bats_took_you_to : ℕ → Note
  eaten approaching fallen arrows_taken arrows_broken ball_vanishes playing_are : Note
  ball_shows : Option ℕ → Note
  joined_you : ℕ → ℕ → Note
  you_see playing : ℕ → Note
  maze_failed started_running not_enough footsteps everyone_lost yell scream wail : Note
  killed_by : ℕ → ℕ → Note
  wumpus_killed_by won game_started_by joined quit ended_by : ℕ → Note
  screams_of : ℕ → Note

pub data Event : Type 0 where
  notice : ℕ → Note → Event
  msg : Note → Event
  timer_add timer_add_once : ℕ → ℕ → Event
  timer_destroy : Option ℕ → Event

-- Whether a room holds that.
abbrev pub holds : Contents → Room → Bool
holds e r = code r.contents == code e

abbrev pub is_player : ℕ → Player → Bool
is_player u p = p.u == u

abbrev pub equals : ℤ → ℕ → Bool
equals (pos m) n = m == n
equals (negsuc m) n = false

pub room : ℕ → Game → Option Room
room i g = do rooms ← g.rmemctx; get_elem? rooms i

-- A write to the room at an index.
pub alter_room : ℕ → (Room → Room) → Game → Option Game
unfolding room
alter_room i f g = do
  rooms ← g.rmemctx
  r ← room i g
  some (record g { rmemctx = some (set rooms i (f r)) })

-- A write to the player_t of a user.
pub set_player : Player → List Player → List Player
set_player p [] = []
set_player p (q ∷ l) = if is_player p.u q then p ∷ l else q ∷ set_player p l

-- The loop over the exits of a room that is one away.
pub wumpus_behind : Game → List ℕ → Option Bool
unfolding room
wumpus_behind g [] = some false
wumpus_behind g (j ∷ l) = do
  r₂ ← room j g
  if holds e_wumpus r₂ then some true else wumpus_behind g l

pub distance_from : Game → List ℕ → Option ℕ
unfolding room wumpus_behind
distance_from g [] = some 0
distance_from g (i ∷ l) = do
  r ← room i g
  if holds e_wumpus r
      then some 1
      else do behind ← wumpus_behind g r.exits; if behind then some 2 else distance_from g l

pub distance_to_wumpus : Player → Game → Option ℕ
unfolding distance_from
distance_to_wumpus p g = do i ← p.location; r ← room i g; distance_from g r.exits

pub exit_ids : Game → List ℕ → Option (List ℕ)
unfolding room
exit_ids g [] = some []
exit_ids g (i ∷ l) = do r ← room i g; ids ← exit_ids g l; some (r.id ∷ ids)

pub adjacent_room : Player → ℤ → Game → Option Bool
unfolding room exit_ids any
adjacent_room p n g = do
  i ← p.location
  r ← room i g
  ids ← exit_ids g r.exits
  some (any (equals n) ids)

pub find_player : ℕ → Game → Option Player
unfolding find
find_player u g = find (is_player u) g.players

abbrev pub new_player : ℕ → Player
new_player u = record { u = u; location = none; arrows = 10; hp = 30; has_moved = false }

-- The Boolean is whether a player was made.
pub create_player : ℕ → Game → Game × Bool × List Event
unfolding find_player
create_player u g = elim (find_player u g) [
  | some p ↦ (g, false, notice u already_playing ∷ [])
  | none ↦
      if g.running
      then (g, false, notice u already_in_progress ∷ [])
      else (record g { players = g.players ++ new_player u ∷ [] }, true, [])
]

abbrev pub without : ℕ → Room → Room
without u r = record r { players = delete (λ v. v == u) r.players }

pub leave_room : Player → Game → Option Game
unfolding alter_room delete
leave_room p g = elim p.location [ none ↦ some g | some i ↦ alter_room i (without p.u) g ]

pub resign_player : Player → Game → Option Game
unfolding leave_room delete
resign_player p g = do
  g₁ ← leave_room p g
  some (record g₁ { players = delete (is_player p.u) g₁.players })

pub resign_players : List Player → Game → Option Game
unfolding resign_player
resign_players [] g = some g
resign_players (p ∷ l) g = do g₁ ← resign_player p g; resign_players l g₁

-- The links between the rooms go with the rooms.
pub end_game : Game → Option (Game × List Event)
unfolding resign_players
end_game g = do
  g₁ ← resign_players g.players g
  some (
    record g₁ { rmemctx = none; wumpus = none; running = false; move_timer = none },
    timer_destroy g₁.move_timer ∷ [],
  )

-- The warnings about the rooms around.
pub warnings : ℕ → Game → List ℕ → Option (List Event)
unfolding room
warnings u g [] = some []
warnings u g (i ∷ l) = do
  r ← room i g
  rest ← warnings u g l
  some (
      (if holds e_wumpus r then notice u smell_wumpus ∷ [] else [])
      ++ (if holds e_pit r then notice u feel_draft ∷ [] else [])
      ++ (if holds e_bats r then notice u hear_bats ∷ [] else [])
      ++ (if ltb 0 (length r.players) then notice u smell_humans ∷ [] else [])
      ++ rest)

pub look_player : Player → Game → Option (List Event)
unfolding exit_ids distance_to_wumpus warnings
look_player p g = elim p.location [
  | none ↦ some []
  | some i ↦ do
    r ← room i g
    ids ← exit_ids g r.exits
    distance ← distance_to_wumpus p g
    warned ← warnings p.u g r.exits
    some (
        notice p.u (in_room (pos r.id)) ∷ map (λ n. notice p.u (can_move_to (pos n))) ids
        ++ (if distance == 0 then [] else notice p.u smell_wumpus ∷ [])
        ++ warned)
]

pub check_last_person_alive : Game → Option (Game × List Event)
unfolding end_game
check_last_person_alive g = elim g.players [
  | [] ↦ do (g₁, events) ← end_game g; some (g₁, msg everyone_lost ∷ events)
  | p ∷ l ↦
      if length l == 0
      then (do (g₁, events) ← end_game g; some (g₁, msg (won p.u) ∷ events))
      else some (g, [])
]

abbrev pub drawn : Game → Game
drawn g = record g { draws = g.draws + 1 }

abbrev pub emptied : Room → Room
emptied r = record r { contents = e_nothing }

abbrev pub filled : Contents → Room → Room
filled e r = record r { contents = e }

-- timer_add() with the handle that it returns.
abbrev pub with_timer : ℕ → Game → Game × List Event
with_timer seconds g = (
  record g { move_timer = some g.handles; handles = g.handles + 1 },
  timer_add g.handles seconds ∷ [],
)

module _ (rand : ℕ → ℕ) where
  pub regen_obj : Contents → Game → Option Game
  unfolding alter_room
  regen_obj e g = alter_room (rand g.draws % g.mazesize) (filled e) (drawn g)

  -- The loop of move_wumpus() over the players, with the number of kills.
  pub eat : List Player → Game → Option (Game × ℕ × List Event)
  unfolding room resign_player set_player
  eat [] g = some (g, 0, [])
  eat (p ∷ l) g = do
    i ← p.location
    r ← room i g
    w ← g.wumpus
    if w == r.id
        then (do
          g₁ ← resign_player p g
          (g₂, kills, events) ← eat l g₁
          some (g₂, kills + 1, notice p.u eaten ∷ events))
        else eat l (record g { players = set_player (record p { has_moved = false }) g.players })

  pub move_wumpus : Game → Option (Game × List Event)
  unfolding room regen_obj eat check_last_person_alive
  move_wumpus g = elim g.rmemctx [
    | none ↦ some (g, timer_destroy g.move_timer ∷ [])
    | some rooms ↦ do
      w ← g.wumpus
      r ← room w g
      g₁ ← regen_obj r.contents g
      g₂ ← alter_room w emptied g₁
      next ← get_elem? r.exits (rand g₂.draws % length r.exits)
      tr ← room next g₂
      g₃ ← alter_room next (filled e_wumpus) (drawn g₂)
      (g₄, kills, events) ← eat g₃.players (record g₃ { wumpus = some tr.id })
      (g₅, last) ← check_last_person_alive g₄
      some (
        g₅,
        msg footsteps ∷ events ++ (if kills == 0 then [] else msg (screams_of kills) ∷ []) ++ last,
      )
  ]

  -- The arrow at the player that heads the list of the room.
  pub shoot_at : Player → ℕ → ℕ → Player → Game → Option (Game × List Event)
  unfolding resign_player set_player
  shoot_at p from hit tp g =
      if ltb hit 2 && leb tp.hp 10
      then (do g₁ ← resign_player tp g; some (g₁, msg (killed_by tp.u p.u) ∷ []))
      else if ltb 0 tp.hp && ltb hit 2
      then some (
        record g { players = set_player (record tp { hp = tp.hp - 10 }) g.players },
        notice tp.u (hit_from from) ∷ notice p.u hit_something ∷ [],
      )
      else some (g, notice tp.u (shot_at_from from) ∷ notice p.u miss ∷ [])

  -- The arrow at the wumpus.
  pub shoot_wumpus : Player → ℕ → Game → Option (Game × List Event)
  unfolding move_wumpus end_game
  shoot_wumpus p hit g =
      if ltb 0 g.wump_hp && leb g.wump_hp 5 && ltb hit 2
      then (do
        (g₁, events) ← end_game g
        some (g₁, notice p.u killed_wumpus ∷ msg (wumpus_killed_by p.u) ∷ msg (won p.u) ∷ events))
      else if ltb 5 g.wump_hp && ltb hit 2
      then (do
        (g₁, events) ← move_wumpus (record g { wump_hp = g.wump_hp - 5; speed = g.speed - 3 })
        let (g₂, added) = with_timer g₁.speed g₁
        some (g₂, notice p.u shrugs_it_off ∷ events ++ timer_destroy g₁.move_timer ∷ added))
      else do (g₁, events) ← move_wumpus g; some (g₁, notice p.u miss ∷ events)

  pub shoot_player : Player → ℤ → Game → Option (Game × List Event)
  unfolding adjacent_room room find_player set_player shoot_at shoot_wumpus
  shoot_player p target g =
      let hit = rand g.draws % 3 in
      let g₁ = drawn g in
      if p.arrows == 0 then some (g₁, notice p.u no_arrows ∷ []) else do
        near ← adjacent_room p target g₁
        if not near then some (g₁, notice p.u (cannot_shoot_into target) ∷ []) else do
          i ← p.location
          own ← room i g₁
          if equals target own.id then some (g₁, notice p.u only_adjacent ∷ []) else do
            r ← room (pos_part target) g₁
            let shot = record p { arrows = p.arrows - 1 }
            let g₂ = record g₁ { players = set_player shot g₁.players }
            elim r.players [
              | [] ↦
                  if holds e_wumpus r
                  then shoot_wumpus shot hit g₂
                  else some (g₂, notice p.u shoot_at_nothing ∷ [])
              | v ∷ l ↦ do tp ← find_player v g₂; shoot_at shot own.id hit tp g₂
            ]

  -- Bats take the player to a room; the result is where the player is.
  pub carried : Player → ℕ → Game → Option (ℕ × Game × List Event)
  unfolding room alter_room
  carried p id g = do
    r ← room id g
    if holds e_bats r
        then (do
          let target = rand g.draws % g.mazesize
          g₁ ← alter_room id emptied (drawn g)
          g₂ ← alter_room target (filled e_bats) g₁
          some (target, g₂, notice p.u (bats_took_you_to target) ∷ msg yell ∷ []))
        else some (id, g, [])

  -- Arrows, and then the crystal ball, in the room that the player enters.
  pub find_arrows : Player → ℕ → Game → Option (Player × Game × List Event)
  unfolding room alter_room set_player regen_obj
  find_arrows p id g = do
    r ← room id g
    if holds e_arrows r
        then (do
          let p' = if p.arrows == 0 then record p { arrows = p.arrows + 5 } else p
          g₁ ← alter_room id emptied (record g { players = set_player p' g.players })
          g₂ ← regen_obj e_arrows g₁
          some (p', g₂, notice p.u (if p.arrows == 0 then arrows_taken else arrows_broken) ∷ []))
        else some (p, g, [])

  pub find_ball : Player → ℕ → Game → Option (Game × List Event)
  unfolding room alter_room regen_obj
  find_ball p id g = do
    r ← room id g
    if holds e_crystalball r
        then (do
          g₁ ← alter_room id emptied g
          g₂ ← regen_obj e_crystalball g₁
          some (g₂, notice p.u (ball_shows g.wumpus) ∷ notice p.u ball_vanishes ∷ []))
        else some (g, [])

  abbrev joins : Player → ℕ → List ℕ → List Event
  joins p id [] = []
  joins p id (v ∷ l) =
      if v == p.u
      then joins p id l
      else notice v (joined_you p.u id) ∷ notice p.u (you_see v) ∷ joins p id l

  -- The player goes to the room and looks around.
  pub enter : Player → ℕ → Game → Option (Game × List Event)
  unfolding leave_room alter_room set_player look_player room
  enter p id g = do
    g₁ ← leave_room p g
    let p' = record p { location = some id }
    let g₂ = record g₁ { players = set_player p' g₁.players }
    g₃ ← alter_room id (λ r. record r { players = r.players ++ p.u ∷ [] }) g₂
    seen ← look_player p' g₃
    r ← room id g₃
    some (g₃, seen ++ joins p' id r.players)

  -- The end of a player, and of the game if that leaves one or none.
  pub lose : Player → List Event → Game → Option (Game × List Event)
  unfolding resign_player check_last_person_alive
  lose p said g = do
    g₁ ← resign_player p g
    (g₂, last) ← check_last_person_alive g₁
    some (g₂, said ++ last)

  abbrev is_wumpus_at : Option ℕ → ℕ → Bool
  is_wumpus_at none id = false
  is_wumpus_at (some w) id = w == id

  pub move_player : Player → ℤ → Game → Option (Game × List Event)
  unfolding adjacent_room carried lose find_arrows find_ball enter room
  move_player p target g = do
    near ← adjacent_room p target g
    if not near then some (g, notice p.u (cannot_reach target) ∷ []) else do
      (id, g₁, bats) ← carried p (pos_part target) g
      r ← room id g₁
      if is_wumpus_at g₁.wumpus id
          then lose p (bats ++ notice p.u approaching ∷ msg scream ∷ []) g₁
          else if holds e_pit r
          then lose p (bats ++ notice p.u fallen ∷ msg wail ∷ []) g₁
          else do
            (p', g₂, arrows) ← find_arrows p id g₁
            (g₃, ball) ← find_ball p' id g₂
            (g₄, entered) ← enter p' id g₃
            some (g₄, bats ++ arrows ++ ball ++ entered)
