-- ===== src/Wumpus/Sound/Resigned.antt =====
-- Players who resign, and the end of a game.
use atheme_contrib_modules.Wumpus.Sound.Mazes.{leave-IsMapped}
use atheme_contrib_modules.Wumpus.Sound.Players.{find-false, standing-delete}
use atheme_contrib_modules.Wumpus.Sound.{
  IsState, IsIdle, is_lost, IsFound, IsSound, ArePlaced, Returns, Returns-bind, IsMapped,
  Returns-if, is_placed, IsDistinct,
}
use atheme_contrib_modules.Wumpus.{
  Game, resign_player, resign_players, end_game, check_last_person_alive, Player, leave_room,
  is_player, alter_room, without,
}
use atheme_contrib_modules.Services.Keyed.{find, delete, any}
use atheme_contrib_modules.Prelude.{
  ℕ, List, Bool, true, ◌≡◌, ◌∷◌, false, arith, some, ==_iff, [], ◌<◌, Option-cases, inl, inr, ap,
  sym, length, ◌==◌, refl,
}
use mathlib.Core.Path.{subst}

-- The game in the result of a step, with its events or without.
abbrev pub IsState₁ {ℓ} : {A : Type ℓ} → Game × A → Type 0
IsState₁ (g, _) = IsState g

abbrev pub IsIdle₁ {ℓ} : {A : Type ℓ} → Game × A → Type 0
IsIdle₁ (g, _) = IsIdle g

pub placed_at :
    (n : ℕ) (p : Player) → is_lost n p ≡ false → (i : ℕ) × (p.location ≡ some i) × (i < n)
placed_at n p h = elim (Option-cases p.location) [
  | inl e ↦ absurd (ground (arith, e, h))
  | inr (i, e) ↦ (i, e, ground (arith, e, h))
]

-- The place of a player who is found.
pub found_at :
    (n : ℕ) (p : Player) (ps : List Player)
    → any (is_lost n) ps ≡ false
    → IsFound p ps
    → (i : ℕ) × (p.location ≡ some i) × (i < n)
found_at n p ps h f = placed_at n p (find-false (is_lost n) p.u p ps h f)

pub resign_player-IsSound :
    (b : Bool) (n : ℕ) (ps : List Player) (p : Player) (g : Game)
    → IsSound b n ps g
    → any (is_lost n) ps ≡ false
    → IsFound p ps
    → Returns (IsSound b n (delete (is_player p.u) ps)) (resign_player p g)
unfolding resign_player leave_room
resign_player-IsSound b n ps p g s h f =
    let (i, e, k) = found_at n p ps h f in
    let qs = delete (is_player p.u) ps in
    rw (e, resign_player)
      (Returns-bind (IsMapped b n qs ps) (IsSound b n qs) (alter_room i (without p.u) g) _
        (leave-IsMapped b n i ps qs ps p g s k e (λ v j. standing-delete v j p ps f))
        (λ g₁ (run, start, size, players, maze, w).
          (run, start, size, ap (delete (is_player p.u)) players, maze, w)))

delete_head : (p : Player) (l : List Player) → delete (is_player p.u) (p ∷ l) ≡ l
unfolding delete
delete_head p l = ground (arith, ==_iff p.u p.u)

IsFound-head : (p : Player) (l : List Player) → IsFound p (p ∷ l)
unfolding find
IsFound-head p l = ground (arith, ==_iff p.u p.u)

resign_players-IsSound :
    (b : Bool) (n : ℕ) (l : List Player) (g : Game)
    → IsSound b n l g
    → any (is_lost n) l ≡ false
    → Returns (IsSound b n []) (resign_players l g)
unfolding resign_players any
resign_players-IsSound b n [] g s h = s
resign_players-IsSound b n (p ∷ l) g s h =
    Returns-bind (IsSound b n (delete (is_player p.u) (p ∷ l))) (IsSound b n []) (resign_player p g)
      _ (resign_player-IsSound b n (p ∷ l) p g s h (IsFound-head p l))
      (λ g₁ s₁.
        resign_players-IsSound b n l g₁ (subst (λ k. IsSound b n k g₁) (delete_head p l) s₁)
          (ground arith))

pub end_game-IsIdle :
    (b : Bool) (n : ℕ) (ps : List Player) (g : Game)
    → IsSound b n ps g
    → any (is_lost n) ps ≡ false
    → Returns IsIdle₁ (end_game g)
unfolding end_game any
end_game-IsIdle b n ps g s h =
    let players = s.3 in
    Returns-bind (IsSound b n []) IsIdle₁ (resign_players g.players g) _
      (subst (λ l. Returns (IsSound b n []) (resign_players l g)) (sym players)
        (resign_players-IsSound b n ps g s h))
      (λ g₁ (run, start, size, none_left, maze, w). (
        refl,
        refl,
        subst (λ l. any is_placed l ≡ false) (sym none_left) refl,
        subst IsDistinct (sym none_left) tt,
      ))

pub check_last-IsState :
    (n : ℕ) (ps : List Player) (g : Game)
    → IsSound true n ps g
    → ArePlaced n ps
    → Returns IsState₁ (check_last_person_alive g)
unfolding check_last_person_alive
check_last-IsState n ps g s (h, d) = go g.players refl
  where
    go : (l : List Player) → g.players ≡ l → Returns IsState₁ (check_last_person_alive g)
    go [] e =
        rw (e, check_last_person_alive)
          (Returns-bind IsIdle₁ IsState₁ (end_game g) _ (end_game-IsIdle true n ps g s h)
            (λ r idle. inr idle))
    go (p ∷ l) e =
        rw (e, check_last_person_alive)
          (Returns-if IsState₁ (length l == 0) _ _
            (λ one.
              Returns-bind IsIdle₁ IsState₁ (end_game g) _ (end_game-IsIdle true n ps g s h)
                (λ r idle. inr idle))
            (λ more. inl (n, ps, s, (h, d))))
