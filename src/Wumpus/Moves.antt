-- ===== src/Wumpus/Moves.antt =====
-- The moves of the wumpus and of the players, and the shots, keep the game in order.
use atheme_contrib_modules.Prelude.Int.{ℤ, pos_part}
use atheme_contrib_modules.Services.Database.{◌>>=◌}
use atheme_contrib_modules.Wumpus.Order.{
  IsOrderly, Holds, alter_room-IsOrderly, IsOrderly₁, Holds-if, Holds-read, Holds-bind,
  resign_player-IsOrderly, end_game-IsOrderly, IsDistinct-set_player, check_last-IsOrderly,
}
use atheme_contrib_modules.Wumpus.{
  regen_obj, eat, move_wumpus, shoot_at, Game, shoot_wumpus, Contents, Player, filled, room, drawn,
  alter_room, notice, e_wumpus, miss, resign_player, check_last_person_alive, end_game, msg,
  footsteps, screams_of, emptied, Event, shoot_player, set_player, Room, holds, shoot_at_nothing,
  find_player, adjacent_room, equals,
}
use atheme_contrib_modules.Prelude.{
  ℕ, List, ltb, ◌≡◌, ◌∷◌, true, ◌%◌, some, ◌&&◌, ◌-◌, leb, ◌==◌, Bool-cases, false, inl, ◌++◌, inr,
  if◌then◌else◌, [], Option-cases, get_elem?, length, arith, not, refl,
}

abbrev IsEaten : Game × ℕ × List Event → Type 0
IsEaten (g, _, _) = IsOrderly g

module _ (rand : ℕ → ℕ) where
  pub regen_obj-IsOrderly :
      (e : Contents) (g : Game) → IsOrderly g → Holds IsOrderly (regen_obj rand e g)
  unfolding regen_obj
  regen_obj-IsOrderly e g o =
      alter_room-IsOrderly (rand g.draws % g.mazesize) (filled e) (drawn g) o

  eat-IsOrderly : (l : List Player) (g : Game) → IsOrderly g → Holds IsEaten (eat rand l g)
  unfolding eat
  eat-IsOrderly [] g o = o
  eat-IsOrderly (p ∷ l) g o = Holds-read IsEaten p.location _ (λ i.
      Holds-read IsEaten (room i g) _ (λ r. Holds-read IsEaten g.wumpus _ (λ w.
        Holds-if IsEaten (w == r.id) _ _
          (Holds-bind IsOrderly IsEaten (resign_player p g) _ (resign_player-IsOrderly p g o)
            (λ g₁ o₁.
              Holds-bind IsEaten IsEaten (eat rand l g₁) _ (eat-IsOrderly l g₁ o₁) (λ r₁ o₂. o₂)))
          (eat-IsOrderly l _
            (o.0, IsDistinct-set_player (record p { has_moved = false }) g.players o.1)))))

  pub move_wumpus-IsOrderly : (g : Game) → IsOrderly g → Holds IsOrderly₁ (move_wumpus rand g)
  unfolding move_wumpus
  move_wumpus-IsOrderly g o = elim (Option-cases g.rmemctx) [
    | inl e ↦ rw (e, move_wumpus) o
    | inr (rooms, e) ↦
        rw (e, move_wumpus)
          (Holds-read IsOrderly₁ g.wumpus _ (λ w. Holds-read IsOrderly₁ (room w g) _ (λ r.
            Holds-bind IsOrderly IsOrderly₁ (regen_obj rand r.contents g) _
              (regen_obj-IsOrderly r.contents g o)
              (λ g₁ o₁.
                Holds-bind IsOrderly IsOrderly₁ (alter_room w emptied g₁) _
                  (alter_room-IsOrderly w emptied g₁ o₁)
                  (λ g₂ o₂.
                    Holds-read IsOrderly₁ (get_elem? r.exits (rand g₂.draws % length r.exits)) _
                      (λ next. arrives g₂ o₂ next))))))
  ]
    where
      arrives :
          (g₂ : Game)
          → IsOrderly g₂
          → (next : ℕ)
          → Holds IsOrderly₁ (do
            tr ← room next g₂
            g₃ ← alter_room next (filled e_wumpus) (drawn g₂)
            (g₄, kills, events) ← eat rand g₃.players (record g₃ { wumpus = some tr.id })
            (g₅, last) ← check_last_person_alive g₄
            some (
              g₅,
              msg footsteps ∷ events
                  ++ (if kills == 0 then [] else msg (screams_of kills) ∷ [])
                  ++ last,
            ))
      arrives g₂ o₂ next = Holds-read IsOrderly₁ (room next g₂) _ (λ tr.
          Holds-bind IsOrderly IsOrderly₁ (alter_room next (filled e_wumpus) (drawn g₂)) _
            (alter_room-IsOrderly next (filled e_wumpus) (drawn g₂) o₂)
            (λ g₃ o₃.
              let g₃' : Game = record g₃ { wumpus = some tr.id } in
              Holds-bind IsEaten IsOrderly₁ (eat rand g₃.players g₃') _
                (eat-IsOrderly g₃.players g₃' o₃)
                (λ r₄ o₄.
                  Holds-bind IsOrderly₁ IsOrderly₁ (check_last_person_alive r₄.0) _
                    (check_last-IsOrderly r₄.0 o₄) (λ r₅ o₅. o₅))))

  shoot_at-IsOrderly :
      (p tp : Player) (from hit : ℕ) (g : Game)
      → IsOrderly g
      → Holds IsOrderly₁ (shoot_at rand p from hit tp g)
  unfolding shoot_at
  shoot_at-IsOrderly p tp from hit g o =
      Holds-if IsOrderly₁ (ltb hit 2 && leb tp.hp 10) _ _
        (Holds-bind IsOrderly IsOrderly₁ (resign_player tp g) _ (resign_player-IsOrderly tp g o)
          (λ g₁ o₁. o₁))
        (Holds-if IsOrderly₁ (ltb 0 tp.hp && ltb hit 2) _ _
          (o.0, IsDistinct-set_player (record tp { hp = tp.hp - 10 }) g.players o.1) o)

  -- A hit that the wumpus survives takes 5 off its health and makes it faster by 3.
  angrier-IsOrderly :
      (g : Game)
      → IsOrderly g
      → ltb 5 g.wump_hp ≡ true
      → IsOrderly (record g { wump_hp = g.wump_hp - 5; speed = g.speed - 3 })
  angrier-IsOrderly g o h = (ground arith, o.1)

  shoot_wumpus-IsOrderly :
      (p : Player) (hit : ℕ) (g : Game) → IsOrderly g → Holds IsOrderly₁ (shoot_wumpus rand p hit g)
  unfolding shoot_wumpus
  shoot_wumpus-IsOrderly p hit g o =
      Holds-if IsOrderly₁ (ltb 0 g.wump_hp && leb g.wump_hp 5 && ltb hit 2) _ _
        (Holds-bind IsOrderly₁ IsOrderly₁ (end_game g) _ (end_game-IsOrderly g o) (λ r o₁. o₁))
        (elim (Bool-cases (ltb 5 g.wump_hp)) [
          | inl e ↦
              let g' : Game = record g { wump_hp = g.wump_hp - 5; speed = g.speed - 3 } in
              Holds-if IsOrderly₁ (ltb 5 g.wump_hp && ltb hit 2) _ _
                (Holds-bind IsOrderly₁ IsOrderly₁ (move_wumpus rand g') _
                  (move_wumpus-IsOrderly g' (angrier-IsOrderly g o e)) (λ r o₁. o₁))
                missed
          | inr e ↦ rw e missed
        ])
    where
      missed :
          Holds IsOrderly₁
            (do (g₁, events) ← move_wumpus rand g; some (g₁, notice p.u miss ∷ events))
      missed =
          Holds-bind IsOrderly₁ IsOrderly₁ (move_wumpus rand g) _ (move_wumpus-IsOrderly g o)
            (λ r o₁. o₁)

  pub shoot_player-IsOrderly :
      (p : Player) (target : ℤ) (g : Game)
      → IsOrderly g
      → Holds IsOrderly₁ (shoot_player rand p target g)
  unfolding shoot_player
  shoot_player-IsOrderly p target g o = Holds-if IsOrderly₁ (p.arrows == 0) _ _ o (
      Holds-read IsOrderly₁ (adjacent_room p target (drawn g)) _ (λ near.
        Holds-if IsOrderly₁ (not near) _ _ o (
          Holds-read IsOrderly₁ p.location _ (λ i.
            Holds-read IsOrderly₁ (room i (drawn g)) _ (λ own.
              Holds-if IsOrderly₁ (equals target own.id) _ _ o (
                Holds-read IsOrderly₁ (room (pos_part target) (drawn g)) _
                  (λ r. shot_at own.id r r.players refl)))))))
    where
      shot : Player
      shot = record p { arrows = p.arrows - 1 }

      g₂ : Game
      g₂ = record (drawn g) { players = set_player shot g.players }

      o₂ : IsOrderly g₂
      o₂ = (o.0, IsDistinct-set_player shot g.players o.1)

      shot_at :
          (from : ℕ) (r : Room) (l : List ℕ)
          → r.players ≡ l
          → Holds IsOrderly₁ (elim r.players [
            | [] ↦
                if holds e_wumpus r
                then shoot_wumpus rand shot (rand g.draws % 3) g₂
                else some (g₂, notice p.u shoot_at_nothing ∷ [])
            | v ∷ l' ↦ do tp ← find_player v g₂; shoot_at rand shot from (rand g.draws % 3) tp g₂
          ])
      shot_at from r [] e = rw e (
          Holds-if IsOrderly₁ (holds e_wumpus r) _ _
            (shoot_wumpus-IsOrderly shot (rand g.draws % 3) g₂ o₂) o₂)
      shot_at from r (v ∷ l') e = rw e (
          Holds-read IsOrderly₁ (find_player v g₂) _
            (λ tp. shoot_at-IsOrderly shot tp from (rand g.draws % 3) g₂ o₂))
