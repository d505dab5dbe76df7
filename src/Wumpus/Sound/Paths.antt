-- ===== src/Wumpus/Sound/Paths.antt =====
-- Arrows, and the ways of the players.
use atheme_contrib_modules.Wumpus.Sound.Views.{adjacent_room-Returns, read_room}
use atheme_contrib_modules.Services.Keyed.{delete, find-some_of_any, find}
use atheme_contrib_modules.Wumpus.Sound.Players.{
  ArePlaced-set_player, find-false, ArePlaced-delete, standing-kept, standing-any, IsFound-self,
}
use atheme_contrib_modules.Wumpus.Sound.Walks.{kept-IsSound, move_wumpus-IsState}
use atheme_contrib_modules.Wumpus.Sound.Resigned.{
  IsState₁, IsIdle₁, end_game-IsIdle, resign_player-IsSound, found_at,
}
use atheme_contrib_modules.Prelude.Int.{ℤ, pos_part}
use atheme_contrib_modules.Wumpus.{
  shoot_at, shoot_wumpus, shoot_player, Player, find_player, Game, set_player, drawn, is_player,
  end_game, resign_player, Room, move_wumpus, holds, e_wumpus, notice, shoot_at_nothing,
  adjacent_room, equals,
}
use atheme_contrib_modules.Wumpus.Sound.{
  times, IsSound, ArePlaced, IsFound, Returns, Returns-if, Returns-bind, is_lost, IsRoom, standing,
  Returns-read,
}
use atheme_contrib_modules.Prelude.{
  [], ℕ, List, ◌<◌, ◌∷◌, arith, ==_iff, true, ◌-◌, ltb, ◌&&◌, leb, inr, inl, ◌≡◌, refl,
  if◌then◌else◌, ◌%◌, some, ap, ◌∙◌, ◌==◌, not,
}
use atheme_contrib_modules.Services.Database.{◌>>=◌}

pub times_head : (v : ℕ) (l : List ℕ) → 0 < times v (v ∷ l)
unfolding times
times_head v l = ground (arith, ==_iff v v)

module _ (rand : ℕ → ℕ) where
  shoot_at-IsState :
      (n : ℕ) (ps : List Player) (p tp : Player) (from hit : ℕ) (g : Game)
      → IsSound true n ps g
      → ArePlaced n ps
      → IsFound tp ps
      → Returns IsState₁ (shoot_at rand p from hit tp g)
  unfolding shoot_at
  shoot_at-IsState n ps p tp from hit g s a f =
      Returns-if IsState₁ (ltb hit 2 && leb tp.hp 10) _ _
        (λ t.
          Returns-bind (IsSound true n (delete (is_player tp.u) ps)) IsState₁ (resign_player tp g) _
            (resign_player-IsSound true n ps tp g s a.0 f)
            (λ g₁ s₁. inl (n, delete (is_player tp.u) ps, s₁, ArePlaced-delete n tp.u ps a)))
        (λ t.
          let tp' : Player = record tp { hp = tp.hp - 10 } in
          Returns-if IsState₁ (ltb 0 tp.hp && ltb hit 2) _ _
            (λ t'. inl (
              n,
              set_player tp' ps,
              kept-IsSound true n ps tp tp' g s f refl refl,
              ArePlaced-set_player n tp' ps a (find-false (is_lost n) tp.u tp ps a.0 f),
            ))
            (λ t'. inl (n, ps, s, a)))

  shoot_wumpus-IsState :
      (n : ℕ) (ps : List Player) (p : Player) (hit : ℕ) (g : Game)
      → IsSound true n ps g
      → ArePlaced n ps
      → Returns IsState₁ (shoot_wumpus rand p hit g)
  unfolding shoot_wumpus
  shoot_wumpus-IsState n ps p hit g s a =
      let angrier : Game = record g { wump_hp = g.wump_hp - 5; speed = g.speed - 3 } in
      Returns-if IsState₁ (ltb 0 g.wump_hp && leb g.wump_hp 5 && ltb hit 2) _ _
        (λ t.
          Returns-bind IsIdle₁ IsState₁ (end_game g) _ (end_game-IsIdle true n ps g s a.0)
            (λ r idle. inr idle))
        (λ t.
          Returns-if IsState₁ (ltb 5 g.wump_hp && ltb hit 2) _ _
            (λ t'.
              Returns-bind IsState₁ IsState₁ (move_wumpus rand angrier) _
                (move_wumpus-IsState rand n ps angrier s a) (λ r o. o))
            (λ t'.
              Returns-bind IsState₁ IsState₁ (move_wumpus rand g) _
                (move_wumpus-IsState rand n ps g s a) (λ r o. o)))

  pub shoot_player-IsState :
      (n : ℕ) (ps : List Player) (p : Player) (target : ℤ) (g : Game)
      → IsSound true n ps g
      → ArePlaced n ps
      → IsFound p ps
      → Returns IsState₁ (shoot_player rand p target g)
  unfolding shoot_player find_player
  shoot_player-IsState n ps p target g s a f =
      let (i, e, h) = found_at n p ps a.0 f in
      Returns-if IsState₁ (p.arrows == 0) _ _ (λ t. inl (n, ps, s, a))
        (λ t.
          Returns-bind (λ near. near ≡ true → pos_part target < n) IsState₁
            (adjacent_room p target (drawn g)) _
            (adjacent_room-Returns true n ps ps (drawn g) s p i target e h)
            (λ near below.
              Returns-if IsState₁ (not near) _ _ (λ t'. inl (n, ps, s, a))
                (λ t'. Returns-read IsState₁ p.location i _ e (
                  read_room true n ps ps (drawn g) s IsState₁ i _ h (λ own ok.
                    Returns-if IsState₁ (equals target own.id) _ _ (λ t''. inl (n, ps, s, a))
                      (λ t''.
                        read_room true n ps ps (drawn g) s IsState₁ (pos_part target) _
                          (below (ground arith))
                          (λ r ok'. shot_into own.id r ok' r.players refl)))))))
    where
      shot : Player
      shot = record p { arrows = p.arrows - 1 }

      qs : List Player
      qs = set_player shot ps

      g₂ : Game
      g₂ = record (drawn g) { players = set_player shot g.players }

      s₂ : IsSound true n qs g₂
      s₂ = kept-IsSound true n ps p shot (drawn g) s f refl refl

      a₂ : ArePlaced n qs
      a₂ = ArePlaced-set_player n shot ps a (find-false (is_lost n) p.u p ps a.0 f)

      shot_into :
          (from : ℕ) (r : Room)
          → IsRoom n ps (pos_part target) r
          → (l : List ℕ) → r.players ≡ l
          → Returns IsState₁ (elim r.players [
            | [] ↦
                if holds e_wumpus r
                then shoot_wumpus rand shot (rand g.draws % 3) g₂
                else some (g₂, notice p.u shoot_at_nothing ∷ [])
            | v ∷ l' ↦ do tp ← find_player v g₂; shoot_at rand shot from (rand g.draws % 3) tp g₂
          ])
      shot_into from r ok [] e = rw e (
          Returns-if IsState₁ (holds e_wumpus r) _ _
            (λ t. shoot_wumpus-IsState n qs shot (rand g.draws % 3) g₂ s₂ a₂)
            (λ t. inl (n, qs, s₂, a₂)))
      shot_into from r ok (v ∷ l') e =
          let in_it : 0 < standing v (pos_part target) qs = omega (
            arith,
            times_head v l',
            ap (times v) e,
            ok.3 v,
            standing-kept v (pos_part target) p shot ps f refl refl,
          ) in
          let (tp, found, _) =
            find-some_of_any (is_player v) qs (standing-any v (pos_part target) qs in_it) in
          let found' : find_player v g₂ ≡ some tp = ap (find (is_player v)) s₂.3 ∙ found in
          rw e (
            Returns-read IsState₁ (find_player v g₂) tp _ found' (
              shoot_at-IsState n qs shot tp from (rand g.draws % 3) g₂ s₂ a₂
                (IsFound-self v tp qs found).1))
