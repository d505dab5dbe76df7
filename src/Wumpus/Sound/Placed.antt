-- ===== src/Wumpus/Sound/Placed.antt =====
-- The players are placed, and the game begins.
use atheme_contrib_modules.Wumpus.Sound.Begun.{IsMade, build_maze-IsMade}
use atheme_contrib_modules.Services.Database.{◌>>=◌}
use atheme_contrib_modules.Wumpus.Sound.Players.{standing-set_player}
use atheme_contrib_modules.Wumpus.Sound.Mazes.{enter-IsMapped}
use atheme_contrib_modules.Wumpus.Sound.Built.{Holds-of}
use atheme_contrib_modules.Wumpus.Sound.Walks.{drawn_below}
use atheme_contrib_modules.Wumpus.Order.{
  Holds, Holds-bind, Holds-read, IsDistinct-set_player, Holds-if,
}
use atheme_contrib_modules.Wumpus.Sound.Resigned.{IsIdle₁, IsState₁}
use atheme_contrib_modules.Wumpus.Sound.{
  is_placed, IsSound, IsDistinct, stands, ArePlaced, Returns, IsFound, is_lost, IsIdle,
}
use atheme_contrib_modules.Wumpus.Maze.{place, start_game, init_game, build_maze}
use atheme_contrib_modules.Wumpus.{
  set_player, resign_player, resign_players, end_game, Player, Game, leave_room, is_player, Event,
  drawn, alter_room, look_player, with_timer, msg, started_running,
}
use atheme_contrib_modules.Prelude.{
  ℕ, List, ◌≡◌, false, ◌∷◌, some, ◌++◌, arith, [], ==_iff, refl, ◌∙◌, ◌%◌, ap, true, if◌then◌else◌,
  leb, sym, ltb, inl, length, inr, Bool, Option,
}
use atheme_contrib_modules.Services.Keyed.{any, find, delete, any-append, find-append}
use mathlib.Core.Option.{none}
use mathlib.Core.Path.{subst}
use mathlib.Core.List.{append-nil}

distinct_middle :
    (p : Player) (done l : List Player)
    → IsDistinct (done ++ p ∷ l)
    → any (is_player p.u) done ≡ false
unfolding any
distinct_middle p [] l d = refl
distinct_middle p (q ∷ done) l d = ground (
  arith,
  distinct_middle p done l d.1,
  any-append (is_player q.u) done (p ∷ l),
  d.0,
  ==_iff q.u p.u,
  ==_iff p.u q.u,
)

IsFound-middle :
    (p : Player) (done l : List Player) → IsDistinct (done ++ p ∷ l) → IsFound p (done ++ p ∷ l)
unfolding find
IsFound-middle p done l d =
    find-append (is_player p.u) done (p ∷ l) (distinct_middle p done l d)
    ∙ ground (arith, ==_iff p.u p.u)

set_player_middle :
    (p q : Player) (done l : List Player)
    → q.u ≡ p.u
    → any (is_player p.u) done ≡ false
    → set_player q (done ++ p ∷ l) ≡ (done ++ q ∷ []) ++ l
unfolding set_player any
set_player_middle p q [] l e h = ground (arith, ==_iff p.u q.u)
set_player_middle p q (x ∷ done) l e h = ground (arith, set_player_middle p q done l)

unplaced_stands :
    (v j : ℕ) (p : Player) (l : List Player) → any is_placed (p ∷ l) ≡ false → stands v j p ≡ 0
unfolding any
unplaced_stands v j p l h = ground arith

module _ (rand : ℕ → ℕ) where
  abbrev IsSettled : ℕ → Game × List Event → Type 0
  IsSettled n (g, _) = (ps : List Player) × IsSound false n ps g × ArePlaced n ps

  -- The players `done` are placed, and `l` are not yet.
  place-IsSettled :
      (n : ℕ) (done l : List Player) (g : Game)
      → IsSound false n (done ++ l) g
      → any (is_lost n) done ≡ false
      → IsDistinct (done ++ l)
      → any is_placed l ≡ false
      → Holds (IsSettled n) (place rand l g)
  unfolding place any
  place-IsSettled n done [] g s h d u =
      let same : done ++ [] ≡ done = append-nil done in
      (done, subst (λ k. IsSound false n k g) same s, (h, subst IsDistinct same d))
  place-IsSettled n done (p ∷ l) g s h d u =
      let ps = done ++ p ∷ l in
      let i = rand g.draws % g.mazesize in
      let below = drawn_below rand false n (rand g.draws) ps ps g s in
      let p' : Player = record p { location = some i } in
      let g' : Game = record (drawn g) { players = set_player p' g.players } in
      let qs = set_player p' ps in
      let split : qs ≡ (done ++ p' ∷ []) ++ l =
        set_player_middle p p' done l refl (distinct_middle p done l d) in
      let (run, start, size, players, maze, w) = s in
      let placed : any (is_lost n) (done ++ p' ∷ []) ≡ false =
        any-append (is_lost n) done (p' ∷ []) ∙ ground (arith, h, below) in
      Holds-bind (IsSound false n qs) (IsSettled n)
        (alter_room i (λ r. record r { players = r.players ++ p.u ∷ [] }) g') _
        (Holds-of (IsSound false n qs) _ (
          enter-IsMapped false n i ps qs qs p' g'
            (run, start, size, ap (set_player p') players, maze, w) below refl
            (λ v j. omega (
              arith,
              standing-set_player v j p p' ps (IsFound-middle p done l d) refl,
              unplaced_stands v j p l u,
            ))))
        (λ g₁ s₁. Holds-read (IsSettled n) (look_player p' g₁) _ (λ seen.
          Holds-bind (IsSettled n) (IsSettled n) (place rand l g₁) _
            (place-IsSettled n (done ++ p' ∷ []) l g₁ (subst (λ k. IsSound false n k g₁) split s₁)
              placed (subst IsDistinct split (IsDistinct-set_player p' ps d)) (ground arith))
            (λ r o. o)))

Holds-when {ℓ} :
    {A : Type ℓ} (P : A → Type 0) (b : Bool) (m n : Option A)
    → (b ≡ true → Holds P m)
    → (b ≡ false → Holds P n)
    → Holds P (if b then m else n)
Holds-when P true m n h k = h refl
Holds-when P false m n h k = k refl

resign_unplaced :
    (p : Player) (l : List Player) (g : Game)
    → p.location ≡ none
    → g.players ≡ p ∷ l
    → resign_player p g ≡ some (record g { players = l })
unfolding resign_player leave_room delete
resign_unplaced p l g e h =
    let left : leave_room p g ≡ some g = rw (e, leave_room) refl in
    rw left (
      ap (λ k. some (record g { players = k }))
        (ap (delete (is_player p.u)) h ∙ ground (arith, ==_iff p.u p.u)))

-- Players who are in no room resign without a look at the maze.
resign_all_unplaced :
    (l : List Player) (g : Game)
    → any is_placed l ≡ false
    → g.players ≡ l
    → resign_players l g ≡ some (record g { players = [] })
unfolding resign_players any
resign_all_unplaced [] g u e = ap (λ k. some (record g { players = k })) e
resign_all_unplaced (p ∷ l) g u e =
    let nowhere : p.location ≡ none = ground (arith, u) in
    rw (resign_unplaced p l g nowhere e)
      (resign_all_unplaced l (record g { players = l }) (ground arith) refl)

pub end_game-unplaced : (g : Game) → any is_placed g.players ≡ false → Returns IsIdle₁ (end_game g)
unfolding end_game any
end_game-unplaced g u = rw (resign_all_unplaced g.players g u refl) (refl, refl, refl, tt)

module _ (rand : ℕ → ℕ) where
  begun-IsState :
      (n : ℕ) (l : List Player) (g : Game)
      → IsSound false n l g
      → IsDistinct l
      → any is_placed l ≡ false
      → Holds IsState₁ (do
        (g₂, events) ← place rand g.players g
        let (g₃, added) = with_timer 60 g₂
        some (
          record g₃ { running = true; speed = 60; wump_hp = 70; start_game_timer = none },
          events ++ added ++ msg started_running ∷ [],
        ))
  unfolding any
  begun-IsState n l g s d u =
      Holds-bind (IsSettled rand n) IsState₁ (place rand g.players g) _
        (subst (λ k. Holds (IsSettled rand n) (place rand k g)) (sym s.3)
          (place-IsSettled rand n [] l g s refl d u))
        (λ r (ps, (run, start, size, players, maze, w), a).
          inl (n, ps, (refl, start, size, players, maze, w), a))

  made_players :
      (g g₁ : Game) {built : Bool} → IsMade rand g.players (g₁, built) → g₁.players ≡ g.players
  made_players g g₁ (inl (n, s)) = s.3
  made_players g g₁ (inr (_, e)) = e

  pub start_game-IsState :
      (fuel : ℕ) (g : Game) → IsIdle g → Holds IsState₁ (start_game rand fuel g)
  unfolding start_game init_game
  start_game-IsState fuel g (run, maze, u, d) =
      let size = if leb 300 g.wantsize then 300 else g.wantsize in
      let g' : Game = record g { starting = false; wantsize = size } in
      Holds-if IsState₁ (ltb (length g.players) 2) _ _ (inr (run, maze, u, d)) (
        Holds-bind (IsMade rand g.players) IsState₁ (build_maze rand fuel size g') _
          (build_maze-IsMade rand fuel size g.players g' run refl refl u)
          (λ (g₁, built) made.
            Holds-when IsState₁ built _ _
              (λ t. elim made [
                | inl (n, s) ↦ begun-IsState n g.players g₁ s d u
                | inr (f, _) ↦ absurd (ground (arith, t, f))
              ])
              (λ t.
                Holds-bind IsIdle₁ IsState₁ (end_game g₁) _
                  (Holds-of IsIdle₁ (end_game g₁) (
                    end_game-unplaced g₁
                      (subst (λ k. any is_placed k ≡ false) (sym (made_players g g₁ made)) u)))
                  (λ r idle. inr idle))))
