-- ===== src/Wumpus/Sound/Kept.antt =====
-- What holds of the game whatever is sent, whoever leaves and whenever a timer fires.
use atheme_contrib_modules.Wumpus.Sound.Resigned.{IsState₁}
use atheme_contrib_modules.Wumpus.Sound.Views.{IsAny}
use atheme_contrib_modules.Wumpus.Sound.Faults.{
  running-IsSound, Reach-IsState, cmd_look-Returns, cmd_move-IsState, cmd_shoot-IsState,
  cmd_resign-IsState, cmd_reset-IsState, user_deleted-IsState, walks-IsState,
}
use atheme_contrib_modules.Wumpus.Service.{
  cmd_look, cmd_move, cmd_shoot, cmd_resign, cmd_reset, user_deleted, cmd_start, cmd_join, cmd_who,
}
use atheme_contrib_modules.Services.Text.{Text}
use atheme_contrib_modules.Wumpus.Service.Reach.{Reach, initial}
use atheme_contrib_modules.Services.Database.{◌>>=◌}
use atheme_contrib_modules.Services.Metadata.{is_some}
use atheme_contrib_modules.Wumpus.{Game, room, Player, Room, is_player, move_wumpus}
use atheme_contrib_modules.Services.Keyed.{any}
use atheme_contrib_modules.Wumpus.Sound.{standing, Returns, IsDistinct, within, times}
use atheme_contrib_modules.Prelude.{
  Option, ℕ, List, ◌≡◌, true, false, ◌≤◌, some, ◌∷◌, arith, [], ==_iff, refl, ◌<◌, length,
  get_elem?, ap, sym, ◌∙◌, ◌||◌, not,
}
use mathlib.Core.Option.{none}

returned : {A : Type 0} (P : A → Type 0) (m : Option A) → Returns P m → is_some m ≡ true
returned P none h = absurd h
returned P (some a) h = refl

here_absent : (v j : ℕ) (ps : List Player) → any (is_player v) ps ≡ false → standing v j ps ≡ 0
unfolding standing any
here_absent v j [] h = refl
here_absent v j (p ∷ ps) h = ground (arith, here_absent v j ps)

standing-le : (v j : ℕ) (ps : List Player) → IsDistinct ps → standing v j ps ≤ 1
unfolding standing
standing-le v j [] d = omega arith
standing-le v j (p ∷ ps) d =
    ground (arith, standing-le v j ps d.1, here_absent v j ps, ==_iff p.u v, d.0)

module _ (rand : ℕ → ℕ) where
  -- In every state that the game can reach, and whatever rand() returns, each command but HELP that comes
  -- from a user, the hook on users who go, and the timer that moves the wumpus end without following a null
  -- pointer and without leaving the rooms; and each of them that comes from no user follows a
  -- null pointer, but for RESET while no game runs.
  pub commands_return :
      {g : Game}
      → Reach rand initial g
      → (su : Option ℕ) (u : ℕ) (size id : Option Text)
      → (is_some (cmd_start su size g) ≡ is_some su)
        × (is_some (cmd_join su g) ≡ is_some su)
        × (is_some (cmd_look su g) ≡ is_some su)
        × (is_some (cmd_move rand su id g) ≡ is_some su)
        × (is_some (cmd_shoot rand su id g) ≡ is_some su)
        × (is_some (cmd_resign su g) ≡ is_some su)
        × (is_some (cmd_who su g) ≡ is_some su)
        × (is_some (cmd_reset su g) ≡ (is_some su || not g.running))
        × (is_some (user_deleted u g) ≡ true)
        × (is_some (move_wumpus rand g) ≡ true)
  unfolding cmd_start cmd_join cmd_look cmd_move cmd_shoot cmd_resign cmd_who cmd_reset
  commands_return {g = g} r none u size id =
      let o = Reach-IsState rand r in
      (
        refl,
        refl,
        refl,
        refl,
        refl,
        refl,
        refl,
        ground arith,
        returned IsState₁ (user_deleted u g) (user_deleted-IsState u g o),
        returned IsState₁ (move_wumpus rand g) (walks-IsState rand g o),
      )
  commands_return {g = g} r (some v) u size id =
      let o = Reach-IsState rand r in
      (
        refl,
        refl,
        returned IsAny (cmd_look (some v) g) (cmd_look-Returns v g o),
        returned IsState₁ (cmd_move rand (some v) id g) (cmd_move-IsState rand v id g o),
        returned IsState₁ (cmd_shoot rand (some v) id g) (cmd_shoot-IsState rand v id g o),
        returned IsState₁ (cmd_resign (some v) g) (cmd_resign-IsState v g o),
        refl,
        returned IsState₁ (cmd_reset (some v) g) (cmd_reset-IsState v g o),
        returned IsState₁ (user_deleted u g) (user_deleted-IsState u g o),
        returned IsState₁ (move_wumpus rand g) (walks-IsState rand g o),
      )

  -- In every state that the game can reach in which it runs, a room has the number of its place and an
  -- exit, its exits lead to rooms, and a user stands in its list as often as there is a player of his
  -- in that room, which is once at most.
  pub rooms_agree :
      {g : Game} {r : Room}
      → Reach rand initial g
      → (j v : ℕ) → g.running ≡ true
      → room j g ≡ some r
      → (r.id ≡ j)
        × (0 < length r.exits)
        × (within g.mazesize r.exits ≡ true)
        × (times v r.players ≡ standing v j g.players)
        × (times v r.players ≤ 1)
  unfolding room
  rooms_agree {g = g} {r = r} reached j v run e =
      let (n, ps, (_, _, size, players, (rooms, m, maze), _), (_, d)) =
        running-IsSound g (Reach-IsState rand reached) run in
      let there : get_elem? rooms j ≡ some r = ap (λ k. k >>= (λ rs. get_elem? rs j)) (sym m) ∙ e in
      let ok = maze.1 j r there in
      (
        ok.0,
        ok.1,
        rw size ok.2,
        ok.3 v ∙ ap (standing v j) (sym players),
        omega (arith, ok.3 v, standing-le v j ps d),
      )
