-- ===== src/Wumpus/Service/Reach.antt =====
-- What holds of the game between two events: commands, users who go, and the two timers.
use atheme_contrib_modules.Wumpus.Rooms.{move_player-IsOrderly}
use atheme_contrib_modules.Wumpus.Moves.{move_wumpus-IsOrderly, shoot_player-IsOrderly}
use atheme_contrib_modules.Wumpus.Maze.Start.{start_game-IsOrderly}
use atheme_contrib_modules.Wumpus.Maze.{start_game}
use atheme_contrib_modules.Services.Keyed.{any, find-some_of_any, find-none_of_any}
use atheme_contrib_modules.Wumpus.Order.{
  IsOrderly, is_tuned, Holds, IsOrderly₁, IsDistinct, Holds-if, Holds-bind, end_game-IsOrderly,
  IsDistinct-append, resign_player-IsOrderly,
}
use atheme_contrib_modules.Services.Text.{Text, atoi}
use atheme_contrib_modules.Wumpus.Service.{
  cmd_start, cmd_join, cmd_resign, user_deleted, cmd_reset, cmd_move, cmd_shoot, start_by, join_by,
}
use atheme_contrib_modules.Wumpus.{
  Game, create_player, find_player, Event, is_player, move_wumpus, end_game, resign_player,
  new_player,
}
use atheme_contrib_modules.Prelude.{
  ℕ, List, Option, Bool, ◌≡◌, some, [], arith, Bool-cases, true, false, not, Option-cases, none,
  inl, ◌||◌, inr, leb, ◌&&◌, refl, if◌then◌else◌,
}

-- The initial game_t.
abbrev pub initial : Game
initial = record {
  wumpus = some 0;
  mazesize = 0;
  players = [];
  running = false;
  starting = false;
  rmemctx = none;
  wump_hp = 0;
  speed = 0;
  wantsize = 0;
  move_timer = none;
  start_game_timer = none;
  draws = 0;
  handles = 0;
}

pub Holds-some {ℓ} :
    {A : Type ℓ} (P : A → Type 0) (m : Option A) (a : A) → m ≡ some a → Holds P m → P a
Holds-some P m a e h = rw e at h

pub if-case {ℓ} :
    {A : Type ℓ} (P : A → Type 0) (b : Bool) (x y : A) → P x → P y → P (if b then x else y)
if-case P true x y h k = h
if-case P false x y h k = k

start_by-IsOrderly :
    (u : ℕ) (size : Option Text) (g : Game) → IsOrderly g → IsOrderly (start_by u size g).0
unfolding start_by
start_by-IsOrderly u size g o = if-case IsOrderly₁ (g.running || g.starting) _ _ o o

create_player-IsOrderly : (u : ℕ) (g : Game) → IsOrderly g → IsOrderly (create_player u g).0
unfolding create_player find_player
create_player-IsOrderly u g o = elim (Bool-cases (any (is_player u) g.players)) [
  | inl e ↦ let (p, f, _) = find-some_of_any (is_player u) g.players e in rw (f, create_player) o
  | inr e ↦
      rw (find-none_of_any (is_player u) g.players e, create_player)
        (if-case (λ (r : Game × Bool × List Event). IsOrderly r.0) g.running _ _ o
          (o.0, IsDistinct-append (new_player u) g.players e o.1))
]

join_by-IsOrderly : (u : ℕ) (g : Game) → IsOrderly g → IsOrderly (join_by u g).0
unfolding join_by
join_by-IsOrderly u g o =
    if-case IsOrderly₁ (not g.starting || g.running) _ _ o (create_player-IsOrderly u g o)

cmd_resign-IsOrderly : (u : ℕ) (g : Game) → IsOrderly g → Holds IsOrderly₁ (cmd_resign (some u) g)
unfolding cmd_resign
cmd_resign-IsOrderly u g o = elim (Option-cases (find_player u g)) [
  | inl e ↦ rw (e, cmd_resign) o
  | inr (p, e) ↦
      rw (e, cmd_resign)
        (Holds-if IsOrderly₁ g.running _ _
          (Holds-bind IsOrderly IsOrderly₁ (resign_player p g) _ (resign_player-IsOrderly p g o)
            (λ g₁ o₁. o₁))
          o)
]

user_deleted-IsOrderly : (u : ℕ) (g : Game) → IsOrderly g → Holds IsOrderly₁ (user_deleted u g)
unfolding user_deleted
user_deleted-IsOrderly u g o = elim (Option-cases (find_player u g)) [
  | inl e ↦ rw (e, user_deleted) o
  | inr (p, e) ↦
      rw (e, user_deleted)
        (Holds-bind IsOrderly IsOrderly₁ (resign_player p g) _ (resign_player-IsOrderly p g o)
          (λ g₁ o₁. o₁))
]

-- RESET that comes from no user, if it ends.
pub reset_by_nobody :
    (g h : Game) (events : List Event) → cmd_reset none g ≡ some (h, events) → h ≡ g
unfolding cmd_reset
reset_by_nobody g h events e = elim (Bool-cases g.running) [
  | inl r ↦ (let stuck = rw r at e in cc)
  | inr r ↦ (let same = rw r at e in cc)
]

cmd_reset-IsOrderly : (u : ℕ) (g : Game) → IsOrderly g → Holds IsOrderly₁ (cmd_reset (some u) g)
unfolding cmd_reset
cmd_reset-IsOrderly u g o =
    Holds-if IsOrderly₁ g.running _ _
      (Holds-bind IsOrderly₁ IsOrderly₁ (end_game g) _ (end_game-IsOrderly g o)
        (λ r o₁. (refl, o₁.1)))
      o

module _ (rand : ℕ → ℕ) where
  cmd_move-IsOrderly :
      (u : ℕ) (id : Option Text) (g : Game)
      → IsOrderly g
      → Holds IsOrderly₁ (cmd_move rand (some u) id g)
  unfolding cmd_move
  cmd_move-IsOrderly u none g o = elim (Option-cases (find_player u g)) [
    | inl e ↦ rw (e, cmd_move) o
    | inr (p, e) ↦ rw (e, cmd_move) o
  ]
  cmd_move-IsOrderly u (some s) g o = elim (Option-cases (find_player u g)) [
    | inl e ↦ rw (e, cmd_move) o
    | inr (p, e) ↦
        rw (e, cmd_move)
          (Holds-if IsOrderly₁ g.running _ _ (move_player-IsOrderly rand p (atoi s) g o) o)
  ]

  cmd_shoot-IsOrderly :
      (u : ℕ) (id : Option Text) (g : Game)
      → IsOrderly g
      → Holds IsOrderly₁ (cmd_shoot rand (some u) id g)
  unfolding cmd_shoot
  cmd_shoot-IsOrderly u none g o = elim (Option-cases (find_player u g)) [
    | inl e ↦ rw (e, cmd_shoot) o
    | inr (p, e) ↦ rw (e, cmd_shoot) o
  ]
  cmd_shoot-IsOrderly u (some s) g o = elim (Option-cases (find_player u g)) [
    | inl e ↦ rw (e, cmd_shoot) o
    | inr (p, e) ↦
        rw (e, cmd_shoot)
          (Holds-if IsOrderly₁ g.running _ _ (shoot_player-IsOrderly rand p (atoi s) g o) o)
  ]

  -- The events that change the game. The timer that moves the wumpus fires whenever it likes, the one
  -- that starts the game while START waits for it: that is when `starting` holds.
  pub data Step (g : Game) : Game → Type 0 where
    starts :
        (su : Option ℕ) (size : Option Text) {h : Game} (events : List Event)
        → cmd_start su size g ≡ some (h, events)
        → Step g h
    joins_in :
        (su : Option ℕ) {h : Game} (events : List Event)
        → cmd_join su g ≡ some (h, events)
        → Step g h
    moves :
        (su : Option ℕ) (id : Option Text) {h : Game} (events : List Event)
        → cmd_move rand su id g ≡ some (h, events)
        → Step g h
    shoots :
        (su : Option ℕ) (id : Option Text) {h : Game} (events : List Event)
        → cmd_shoot rand su id g ≡ some (h, events)
        → Step g h
    resigns :
        (su : Option ℕ) {h : Game} (events : List Event)
        → cmd_resign su g ≡ some (h, events)
        → Step g h
    resets :
        (su : Option ℕ) {h : Game} (events : List Event)
        → cmd_reset su g ≡ some (h, events)
        → Step g h
    goes : (u : ℕ) {h : Game} (events : List Event) → user_deleted u g ≡ some (h, events) → Step g h
    begins :
        (fuel : ℕ) {h : Game} (events : List Event)
        → g.starting ≡ true
        → start_game rand fuel g ≡ some (h, events)
        → Step g h
    walks : {h : Game} (events : List Event) → move_wumpus rand g ≡ some (h, events) → Step g h

  pub data Reach (g : Game) : Game → Type 0 where
    here : Reach g g
    next : {h k : Game} → Reach g h → Step h k → Reach g k

  Step-IsOrderly : {g h : Game} → Step g h → IsOrderly g → IsOrderly h
  unfolding cmd_start cmd_join cmd_move cmd_shoot cmd_resign cmd_reset
  Step-IsOrderly {g = g} (starts none size events e) o = cc
  Step-IsOrderly {g = g} (starts (some u) size events e) o =
      Holds-some IsOrderly₁ (cmd_start (some u) size g) _ e (start_by-IsOrderly u size g o)
  Step-IsOrderly {g = g} (joins_in none events e) o = cc
  Step-IsOrderly {g = g} (joins_in (some u) events e) o =
      Holds-some IsOrderly₁ (cmd_join (some u) g) _ e (join_by-IsOrderly u g o)
  Step-IsOrderly {g = g} (moves none id events e) o = cc
  Step-IsOrderly {g = g} (moves (some u) id events e) o =
      Holds-some IsOrderly₁ (cmd_move rand (some u) id g) _ e (cmd_move-IsOrderly u id g o)
  Step-IsOrderly {g = g} (shoots none id events e) o = cc
  Step-IsOrderly {g = g} (shoots (some u) id events e) o =
      Holds-some IsOrderly₁ (cmd_shoot rand (some u) id g) _ e (cmd_shoot-IsOrderly u id g o)
  Step-IsOrderly {g = g} (resigns none events e) o = cc
  Step-IsOrderly {g = g} (resigns (some u) events e) o =
      Holds-some IsOrderly₁ (cmd_resign (some u) g) _ e (cmd_resign-IsOrderly u g o)
  Step-IsOrderly {g = g} (resets none events e) o = rw (reset_by_nobody g _ events e) o
  Step-IsOrderly {g = g} (resets (some u) events e) o =
      Holds-some IsOrderly₁ (cmd_reset (some u) g) _ e (cmd_reset-IsOrderly u g o)
  Step-IsOrderly {g = g} (goes u events e) o =
      Holds-some IsOrderly₁ (user_deleted u g) _ e (user_deleted-IsOrderly u g o)
  Step-IsOrderly {g = g} (begins fuel events t e) o =
      Holds-some IsOrderly₁ (start_game rand fuel g) _ e (start_game-IsOrderly rand fuel g o)
  Step-IsOrderly {g = g} (walks events e) o =
      Holds-some IsOrderly₁ (move_wumpus rand g) _ e (move_wumpus-IsOrderly rand g o)

  Reach-IsOrderly : {g h : Game} → Reach g h → IsOrderly g → IsOrderly h
  Reach-IsOrderly here o = o
  Reach-IsOrderly (next r s) o = Step-IsOrderly s (Reach-IsOrderly r o)

  tuned-speed :
      (g : Game) → is_tuned g ≡ true → (not g.running || (leb 21 g.speed && leb 5 g.wump_hp)) ≡ true
  tuned-speed g h = ground arith

  -- Whatever is sent and whenever a timer fires, from the initial state no user is two players; and
  -- while the game runs the wumpus has at least 5 of its health left, and its speed is
  -- (3 * health + 90) / 5 and at least 21.
  pub Reach-IsHunt :
      {g : Game}
      → Reach initial g
      → IsDistinct g.players
        × (is_tuned g ≡ true)
        × ((not g.running || (leb 21 g.speed && leb 5 g.wump_hp)) ≡ true)
  Reach-IsHunt {g = g} r = let o = Reach-IsOrderly r (refl, tt) in (o.1, o.0, tuned-speed g o.0)
