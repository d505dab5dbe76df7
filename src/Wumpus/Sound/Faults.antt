-- ===== src/Wumpus/Sound/Faults.antt =====
-- No command, hook or timer follows a null pointer or leaves the maze, whatever came before.
use atheme_contrib_modules.Wumpus.Sound.Placed.{start_game-IsState}
use atheme_contrib_modules.Wumpus.Maze.{start_game}
use atheme_contrib_modules.Wumpus.Service.Reach.{
  if-case, Step, initial, Reach, starts, next, here, joins_in, moves, shoots, resigns, resets, goes,
  begins, Holds-some, walks, reset_by_nobody,
}
use atheme_contrib_modules.Wumpus.Order.{any-delete-false, IsDistinct-delete, IsDistinct-append}
use atheme_contrib_modules.Wumpus.Sound.Paths.{shoot_player-IsState}
use atheme_contrib_modules.Wumpus.Sound.Entries.{move_player-IsState}
use atheme_contrib_modules.Services.Keyed.{
  find, delete, any, find-some_of_any, find-none_of_any, any-append,
}
use atheme_contrib_modules.Wumpus.Sound.Walks.{move_wumpus-IsState}
use atheme_contrib_modules.Wumpus.Sound.Players.{find-false, IsFound-self, ArePlaced-delete}
use atheme_contrib_modules.Services.Text.{Text, atoi}
use atheme_contrib_modules.Wumpus.Sound.Views.{IsAny, look_player-Returns}
use atheme_contrib_modules.Wumpus.Sound.Resigned.{
  IsState₁, found_at, resign_player-IsSound, IsIdle₁, end_game-IsIdle,
}
use atheme_contrib_modules.Wumpus.Sound.{
  IsState, IsSound, is_placed, IsIdle, Returns, IsFound, ArePlaced, Returns-if, Returns-bind,
}
use atheme_contrib_modules.Wumpus.Service.{
  cmd_resign, cmd_reset, user_deleted, cmd_look, cmd_move, cmd_shoot, cmd_start, cmd_join, start_by,
  join_by,
}
use atheme_contrib_modules.Wumpus.{
  find_player, Game, leave_room, resign_player, Player, move_wumpus, Event, msg, quit, move_player,
  shoot_player, is_player, end_game, create_player, new_player,
}
use atheme_contrib_modules.Prelude.{
  ℕ, List, Option, ◌≡◌, true, false, some, Option-cases, inl, inr, if◌then◌else◌, ap, arith, ◌∷◌,
  [], refl, sym, ◌∙◌, Bool-cases, ◌||◌, not, Bool,
}
use mathlib.Core.Option.{none}
use atheme_contrib_modules.Services.Database.{◌>>=◌}

IsFound-player :
    (u n : ℕ) (ps : List Player) (p : Player) (g : Game)
    → IsSound true n ps g
    → find_player u g ≡ some p
    → IsFound p ps
unfolding find_player
IsFound-player u n ps p g s e = (IsFound-self u p ps (ap (find (is_player u)) (sym s.3) ∙ e)).1

-- What runs has a maze.
pub running-IsSound :
    (g : Game)
    → IsState g
    → g.running ≡ true
    → (n : ℕ) × (ps : List Player) × IsSound true n ps g × ArePlaced n ps
running-IsSound g (inl s) e = s
running-IsSound g (inr (run, _, _, _)) e = absurd (ground (arith, run, e))

-- A command that only a player may use, while the game runs.
playing-IsState :
    (u : ℕ) (g : Game) (m : Player → Option (Game × List Event)) (idle absent : List Event)
    → IsState g
    → ((n : ℕ) (ps : List Player) (p : Player)
        → IsSound true n ps g
        → ArePlaced n ps
        → IsFound p ps
        → Returns IsState₁ (m p))
    → Returns IsState₁ (elim (find_player u g) [
      | none ↦ some (g, absent)
      | some p ↦ if g.running then m p else some (g, idle)
    ])
playing-IsState u g m idle absent o k = elim (Option-cases (find_player u g)) [
  | inl e ↦ rw e o
  | inr (p, e) ↦ rw e (
      Returns-if IsState₁ g.running _ _
        (λ t.
          let (n, ps, s, a) = running-IsSound g o t in k n ps p s a (IsFound-player u n ps p g s e))
        (λ t. o))
]

not_placed : (p : Player) (g : Game) → is_placed p ≡ false → leave_room p g ≡ some g
unfolding leave_room
not_placed p g h = elim (Option-cases p.location) [
  | inl e ↦ rw (e, leave_room) refl
  | inr (i, e) ↦ absurd (ground (arith, e, h))
]

resign-IsIdle :
    (u : ℕ) (p : Player) (g : Game)
    → IsIdle g
    → find_player u g ≡ some p
    → Returns IsIdle (resign_player p g)
unfolding resign_player leave_room find_player
resign-IsIdle u p g (run, maze, away, d) e =
    let nowhere : is_placed p ≡ false = find-false is_placed u p g.players away e in
    let left : leave_room p g ≡ some g = not_placed p g nowhere in
    rw left
      (run, maze, any-delete-false is_placed p.u g.players away, IsDistinct-delete p.u g.players d)

pub cmd_resign-IsState : (u : ℕ) (g : Game) → IsState g → Returns IsState₁ (cmd_resign (some u) g)
unfolding cmd_resign
cmd_resign-IsState u g o =
    playing-IsState u g (λ p. do g₁ ← resign_player p g; some (g₁, msg (quit u) ∷ [])) _ _ o
      (λ n ps p s a f.
        let qs = delete (is_player p.u) ps in
        Returns-bind (IsSound true n qs) IsState₁ (resign_player p g) _
          (resign_player-IsSound true n ps p g s a.0 f)
          (λ g₁ s₁. inl (n, qs, s₁, ArePlaced-delete n p.u ps a)))

pub cmd_reset-IsState : (u : ℕ) (g : Game) → IsState g → Returns IsState₁ (cmd_reset (some u) g)
unfolding cmd_reset
cmd_reset-IsState u g o =
    Returns-if IsState₁ g.running _ _
      (λ t.
        let (n, ps, s, a) = running-IsSound g o t in
        Returns-bind IsIdle₁ IsState₁ (end_game g) _ (end_game-IsIdle true n ps g s a.0)
          (λ r (run, maze, away, d). inr (refl, maze, away, d)))
      (λ t. o)

pub user_deleted-IsState : (u : ℕ) (g : Game) → IsState g → Returns IsState₁ (user_deleted u g)
unfolding user_deleted
user_deleted-IsState u g o = elim (Option-cases (find_player u g)) [
  | inl e ↦ rw (e, user_deleted) o
  | inr (p, e) ↦ rw (e, user_deleted) (goes p e o)
]
  where
    goes :
        (p : Player)
        → find_player u g ≡ some p
        → IsState g
        → Returns IsState₁ (do g₁ ← resign_player p g; some (g₁, msg (quit u) ∷ []))
    goes p e (inl (n, ps, s, a)) =
        let qs = delete (is_player p.u) ps in
        Returns-bind (IsSound true n qs) IsState₁ (resign_player p g) _
          (resign_player-IsSound true n ps p g s a.0 (IsFound-player u n ps p g s e))
          (λ g₁ s₁. inl (n, qs, s₁, ArePlaced-delete n p.u ps a))
    goes p e (inr i) =
        Returns-bind IsIdle IsState₁ (resign_player p g) _ (resign-IsIdle u p g i e)
          (λ g₁ i₁. inr i₁)

pub cmd_look-Returns : (u : ℕ) (g : Game) → IsState g → Returns IsAny (cmd_look (some u) g)
unfolding cmd_look
cmd_look-Returns u g o = elim (Option-cases (find_player u g)) [
  | inl e ↦ rw (e, cmd_look) tt
  | inr (p, e) ↦
      rw (e, cmd_look)
        (Returns-if IsAny g.running _ _
          (λ t.
            let (n, ps, s, a) = running-IsSound g o t in
            let (i, k, h) = found_at n p ps a.0 (IsFound-player u n ps p g s e) in
            look_player-Returns true n ps ps g s p i k h)
          (λ t. tt))
]

-- While START waits, no game runs.
starting-IsIdle : (g : Game) → IsState g → g.starting ≡ true → IsIdle g
starting-IsIdle g (inl (n, ps, s, a)) t = absurd (ground (arith, s.1, t))
starting-IsIdle g (inr i) t = i

create-IsIdle : (u : ℕ) (g : Game) → IsIdle g → IsIdle (create_player u g).0
unfolding create_player find_player any
create-IsIdle u g (run, maze, away, d) = elim (Bool-cases (any (is_player u) g.players)) [
  | inl e ↦
      let (p, f, _) = find-some_of_any (is_player u) g.players e in
      rw (f, create_player) (run, maze, away, d)
  | inr e ↦
      rw (find-none_of_any (is_player u) g.players e, create_player)
        (if-case (λ (r : Game × Bool × List Event). IsIdle r.0) g.running _ _ (run, maze, away, d)
          (
            run,
            maze,
            any-append is_placed g.players (new_player u ∷ []) ∙ ground (arith, away),
            IsDistinct-append (new_player u) g.players e d,
          ))
]

module _ (rand : ℕ → ℕ) where
  pub cmd_move-IsState :
      (u : ℕ) (id : Option Text) (g : Game)
      → IsState g
      → Returns IsState₁ (cmd_move rand (some u) id g)
  unfolding cmd_move
  cmd_move-IsState u none g o = elim (Option-cases (find_player u g)) [
    | inl e ↦ rw (e, cmd_move) o
    | inr (p, e) ↦ rw (e, cmd_move) o
  ]
  cmd_move-IsState u (some t) g o =
      playing-IsState u g (λ p. move_player rand p (atoi t) g) _ _ o
        (λ n ps p s a f. move_player-IsState rand n ps p (atoi t) g s a f)

  pub cmd_shoot-IsState :
      (u : ℕ) (id : Option Text) (g : Game)
      → IsState g
      → Returns IsState₁ (cmd_shoot rand (some u) id g)
  unfolding cmd_shoot
  cmd_shoot-IsState u none g o = elim (Option-cases (find_player u g)) [
    | inl e ↦ rw (e, cmd_shoot) o
    | inr (p, e) ↦ rw (e, cmd_shoot) o
  ]
  cmd_shoot-IsState u (some t) g o =
      playing-IsState u g (λ p. shoot_player rand p (atoi t) g) _ _ o
        (λ n ps p s a f. shoot_player-IsState rand n ps p (atoi t) g s a f)

  pub walks-IsState : (g : Game) → IsState g → Returns IsState₁ (move_wumpus rand g)
  unfolding move_wumpus
  walks-IsState g (inl (n, ps, s, a)) = move_wumpus-IsState rand n ps g s a
  walks-IsState g (inr i) = rw (i.1, move_wumpus) (inr i)

  start-IsState :
      (u : ℕ) (size : Option Text) (g : Game) → IsState g → IsState (start_by u size g).0
  unfolding start_by
  start-IsState u size g (inl (n, ps, s, a)) =
      let runs : (g.running || g.starting) ≡ true = ground (arith, s.0) in
      rw runs (inl (n, ps, s, a))
  start-IsState u size g (inr i) = if-case IsState₁ (g.running || g.starting) _ _ (inr i) (inr i)

  join-IsState : (u : ℕ) (g : Game) → IsState g → IsState (join_by u g).0
  unfolding join_by
  join-IsState u g (inl (n, ps, s, a)) =
      let runs : (not g.starting || g.running) ≡ true = ground (arith, s.0, s.1) in
      rw runs (inl (n, ps, s, a))
  join-IsState u g (inr i) =
      if-case IsState₁ (not g.starting || g.running) _ _ (inr i) (inr (create-IsIdle u g i))

  Returned : {A : Type 0} (P : A → Type 0) (m : Option A) (a : A) → m ≡ some a → Returns P m → P a
  Returned P m a e h = rw e at h

  Step-IsState : {g h : Game} → Step rand g h → IsState g → IsState h
  unfolding cmd_start cmd_join cmd_move cmd_shoot cmd_resign cmd_reset
  Step-IsState {g = g} (starts none size events e) o = cc
  Step-IsState {g = g} (starts (some u) size events e) o =
      Returned IsState₁ (cmd_start (some u) size g) _ e (start-IsState u size g o)
  Step-IsState {g = g} (joins_in none events e) o = cc
  Step-IsState {g = g} (joins_in (some u) events e) o =
      Returned IsState₁ (cmd_join (some u) g) _ e (join-IsState u g o)
  Step-IsState {g = g} (moves none id events e) o = cc
  Step-IsState {g = g} (moves (some u) id events e) o =
      Returned IsState₁ (cmd_move rand (some u) id g) _ e (cmd_move-IsState u id g o)
  Step-IsState {g = g} (shoots none id events e) o = cc
  Step-IsState {g = g} (shoots (some u) id events e) o =
      Returned IsState₁ (cmd_shoot rand (some u) id g) _ e (cmd_shoot-IsState u id g o)
  Step-IsState {g = g} (resigns none events e) o = cc
  Step-IsState {g = g} (resigns (some u) events e) o =
      Returned IsState₁ (cmd_resign (some u) g) _ e (cmd_resign-IsState u g o)
  Step-IsState {g = g} (resets none events e) o = rw (reset_by_nobody g _ events e) o
  Step-IsState {g = g} (resets (some u) events e) o =
      Returned IsState₁ (cmd_reset (some u) g) _ e (cmd_reset-IsState u g o)
  Step-IsState {g = g} (goes u events e) o =
      Returned IsState₁ (user_deleted u g) _ e (user_deleted-IsState u g o)
  Step-IsState {g = g} (begins fuel events t e) o =
      Holds-some IsState₁ (start_game rand fuel g) _ e
        (start_game-IsState rand fuel g (starting-IsIdle g o t))
  Step-IsState {g = g} (walks events e) o =
      Returned IsState₁ (move_wumpus rand g) _ e (walks-IsState g o)

  initial-IsState : IsState initial
  unfolding any
  initial-IsState = inr (refl, refl, refl, tt)

  pub Reach-IsState : {g : Game} → Reach rand initial g → IsState g
  Reach-IsState r = go r
    where
      go : {h : Game} → Reach rand initial h → IsState h
      go here = initial-IsState
      go (next r' s) = Step-IsState s (go r')
