-- ===== src/Wumpus/Rooms.antt =====
-- What a player meets on the way into a room keeps the game in order.
use atheme_contrib_modules.Wumpus.Moves.{regen_obj-IsOrderly}
use atheme_contrib_modules.Wumpus.Order.{
  IsOrderly, Holds, Holds-read, IsOrderly₁, Holds-bind, Holds-if, resign_player-IsOrderly,
  leave_room-IsOrderly, check_last-IsOrderly, alter_room-IsOrderly, IsDistinct-set_player,
}
use atheme_contrib_modules.Prelude.Int.{ℤ, pos_part}
use atheme_contrib_modules.Wumpus.{
  Game, Player, carried, find_arrows, find_ball, enter, lose, move_player, Event, room,
  adjacent_room, leave_room, resign_player, holds, e_bats, e_crystalball, set_player,
  check_last_person_alive, alter_room, e_arrows, is_wumpus_at, emptied, e_pit, drawn, regen_obj,
  filled, look_player,
}
use atheme_contrib_modules.Prelude.{
  ℕ, List, some, if◌then◌else◌, not, ◌==◌, ◌+◌, ◌++◌, ◌∷◌, [], ◌%◌,
}

abbrev IsOrderlyAt : ℕ × Game × List Event → Type 0
IsOrderlyAt (_, g, _) = IsOrderly g

abbrev IsOrderlyBy : Player × Game × List Event → Type 0
IsOrderlyBy (_, g, _) = IsOrderly g

module _ (rand : ℕ → ℕ) where
  carried-IsOrderly :
      (p : Player) (id : ℕ) (g : Game) → IsOrderly g → Holds IsOrderlyAt (carried rand p id g)
  unfolding carried
  carried-IsOrderly p id g o = Holds-read IsOrderlyAt (room id g) _ (λ r.
      Holds-if IsOrderlyAt (holds e_bats r) _ _
        (Holds-bind IsOrderly IsOrderlyAt (alter_room id emptied (drawn g)) _
          (alter_room-IsOrderly id emptied (drawn g) o)
          (λ g₁ o₁.
            let target = rand g.draws % g.mazesize in
            Holds-bind IsOrderly IsOrderlyAt (alter_room target (filled e_bats) g₁) _
              (alter_room-IsOrderly target (filled e_bats) g₁ o₁) (λ g₂ o₂. o₂)))
        o)

  find_arrows-IsOrderly :
      (p : Player) (id : ℕ) (g : Game) → IsOrderly g → Holds IsOrderlyBy (find_arrows rand p id g)
  unfolding find_arrows
  find_arrows-IsOrderly p id g o = Holds-read IsOrderlyBy (room id g) _ (λ r.
      let p' : Player = if p.arrows == 0 then record p { arrows = p.arrows + 5 } else p in
      let g' : Game = record g { players = set_player p' g.players } in
      Holds-if IsOrderlyBy (holds e_arrows r) _ _
        (Holds-bind IsOrderly IsOrderlyBy (alter_room id emptied g') _
          (alter_room-IsOrderly id emptied g' (o.0, IsDistinct-set_player p' g.players o.1))
          (λ g₁ o₁.
            Holds-bind IsOrderly IsOrderlyBy (regen_obj rand e_arrows g₁) _
              (regen_obj-IsOrderly rand e_arrows g₁ o₁) (λ g₂ o₂. o₂)))
        o)

  find_ball-IsOrderly :
      (p : Player) (id : ℕ) (g : Game) → IsOrderly g → Holds IsOrderly₁ (find_ball rand p id g)
  unfolding find_ball
  find_ball-IsOrderly p id g o = Holds-read IsOrderly₁ (room id g) _ (λ r.
      Holds-if IsOrderly₁ (holds e_crystalball r) _ _
        (Holds-bind IsOrderly IsOrderly₁ (alter_room id emptied g) _
          (alter_room-IsOrderly id emptied g o)
          (λ g₁ o₁.
            Holds-bind IsOrderly IsOrderly₁ (regen_obj rand e_crystalball g₁) _
              (regen_obj-IsOrderly rand e_crystalball g₁ o₁) (λ g₂ o₂. o₂)))
        o)

  enter-IsOrderly :
      (p : Player) (id : ℕ) (g : Game) → IsOrderly g → Holds IsOrderly₁ (enter rand p id g)
  unfolding enter
  enter-IsOrderly p id g o =
      let p' : Player = record p { location = some id } in
      Holds-bind IsOrderly IsOrderly₁ (leave_room p g) _ (leave_room-IsOrderly p g o) (λ g₁ o₁.
        let g₂ : Game = record g₁ { players = set_player p' g₁.players } in
        Holds-bind IsOrderly IsOrderly₁
          (alter_room id (λ r. record r { players = r.players ++ p.u ∷ [] }) g₂) _
          (alter_room-IsOrderly id (λ r. record r { players = r.players ++ p.u ∷ [] }) g₂
            (o₁.0, IsDistinct-set_player p' g₁.players o₁.1))
          (λ g₃ o₃.
            Holds-read IsOrderly₁ (look_player p' g₃) _
              (λ seen. Holds-read IsOrderly₁ (room id g₃) _ (λ r. o₃))))

  lose-IsOrderly :
      (p : Player) (said : List Event) (g : Game)
      → IsOrderly g
      → Holds IsOrderly₁ (lose rand p said g)
  unfolding lose
  lose-IsOrderly p said g o =
      Holds-bind IsOrderly IsOrderly₁ (resign_player p g) _ (resign_player-IsOrderly p g o)
        (λ g₁ o₁.
          Holds-bind IsOrderly₁ IsOrderly₁ (check_last_person_alive g₁) _
            (check_last-IsOrderly g₁ o₁) (λ r o₂. o₂))

  pub move_player-IsOrderly :
      (p : Player) (target : ℤ) (g : Game)
      → IsOrderly g
      → Holds IsOrderly₁ (move_player rand p target g)
  unfolding move_player
  move_player-IsOrderly p target g o = Holds-read IsOrderly₁ (adjacent_room p target g) _ (λ near.
      Holds-if IsOrderly₁ (not near) _ _ o (
        Holds-bind IsOrderlyAt IsOrderly₁ (carried rand p (pos_part target) g) _
          (carried-IsOrderly p (pos_part target) g o)
          (λ c o₁. Holds-read IsOrderly₁ (room c.0 c.1) _ (λ r.
            Holds-if IsOrderly₁ (is_wumpus_at rand c.1.wumpus c.0) _ _ (lose-IsOrderly p _ c.1 o₁) (
              Holds-if IsOrderly₁ (holds e_pit r) _ _ (lose-IsOrderly p _ c.1 o₁) (
                Holds-bind IsOrderlyBy IsOrderly₁ (find_arrows rand p c.0 c.1) _
                  (find_arrows-IsOrderly p c.0 c.1 o₁)
                  (λ a o₂.
                    Holds-bind IsOrderly₁ IsOrderly₁ (find_ball rand a.0 c.0 a.1) _
                      (find_ball-IsOrderly a.0 c.0 a.1 o₂)
                      (λ b o₃.
                        Holds-bind IsOrderly₁ IsOrderly₁ (enter rand a.0 c.0 b.0) _
                          (enter-IsOrderly a.0 c.0 b.0 o₃) (λ e o₄. o₄)))))))))
