-- ===== src/Wumpus/Sound/Entries.antt =====
-- A player moves: bats, the ways to lose, what lies in the room, and the room itself.
use atheme_contrib_modules.Wumpus.Sound.Mazes.{alter_room-filled, leave-IsMapped, enter-IsMapped}
use atheme_contrib_modules.Wumpus.Sound.Players.{
  ArePlaced-set_player, standing-delete, ArePlaced-delete, IsFound-set_player, standing-set_player,
  find-false,
}
use atheme_contrib_modules.Wumpus.Sound.Walks.{kept-IsSound, drawn_below, regen_obj-IsMapped}
use atheme_contrib_modules.Services.Keyed.{delete}
use atheme_contrib_modules.Wumpus.Sound.Resigned.{
  IsState₁, found_at, resign_player-IsSound, check_last-IsState,
}
use atheme_contrib_modules.Wumpus.Sound.Views.{
  read_room, adjacent_room-Returns, IsAny, look_player-Returns,
}
use atheme_contrib_modules.Wumpus.Sound.{
  IsSound, ArePlaced, Returns, IsFound, Returns-if, is_lost, Returns-bind, IsMapped,
}
use atheme_contrib_modules.Prelude.Int.{ℤ, pos_part}
use atheme_contrib_modules.Wumpus.{
  Player, carried, find_arrows, find_ball, enter, lose, move_player, Game, leave_room, Event,
  set_player, holds, e_bats, e_crystalball, is_player, alter_room, resign_player, e_arrows, emptied,
  adjacent_room, drawn, check_last_person_alive, e_nothing, filled, regen_obj, is_wumpus_at, e_pit,
  look_player,
}
use atheme_contrib_modules.Prelude.{
  ℕ, List, if◌then◌else◌, ◌≡◌, ◌<◌, arith, ◌==◌, true, ◌+◌, some, false, ◌%◌, not, inl, ◌++◌, ◌∷◌,
  [], ap, refl, ◌∙◌,
}

-- Where the player is, in a game that runs with the players `ps`.
abbrev IsCarried : ℕ → List Player → ℕ × Game × List Event → Type 0
IsCarried n ps (id, g, _) = (id < n) × IsSound true n ps g

-- The player as he is found now.
abbrev IsArmed : ℕ → Player × Game × List Event → Type 0
IsArmed n (p, g, _) = (ps : List Player) × IsSound true n ps g × ArePlaced n ps × IsFound p ps

lost_same : (n : ℕ) (q p : Player) → q.location ≡ p.location → is_lost n q ≡ is_lost n p
lost_same n q p e = rw e refl

module _ (rand : ℕ → ℕ) where
  carried-IsCarried :
      (n : ℕ) (ps : List Player) (p : Player) (id : ℕ) (g : Game)
      → IsSound true n ps g
      → id < n
      → Returns (IsCarried n ps) (carried rand p id g)
  unfolding carried
  carried-IsCarried n ps p id g s h = read_room true n ps ps g s (IsCarried n ps) id _ h (λ r ok.
      Returns-if (IsCarried n ps) (holds e_bats r) _ _
        (λ t.
          let target = rand g.draws % g.mazesize in
          let below = drawn_below rand true n (rand g.draws) ps ps g s in
          Returns-bind (IsSound true n ps) (IsCarried n ps) (alter_room id emptied (drawn g)) _
            (alter_room-filled true n id ps ps e_nothing (drawn g) s h)
            (λ g₁ s₁.
              Returns-bind (IsSound true n ps) (IsCarried n ps)
                (alter_room target (filled e_bats) g₁) _
                (alter_room-filled true n target ps ps e_bats g₁ s₁ below) (λ g₂ s₂. (below, s₂))))
        (λ t. (h, s)))

  armed : Player → Player
  armed p = if p.arrows == 0 then record p { arrows = p.arrows + 5 } else p

  armed-same : (p : Player) → ((armed p).u ≡ p.u) × ((armed p).location ≡ p.location)
  unfolding armed
  armed-same p = ground arith

  find_arrows-IsArmed :
      (n : ℕ) (ps : List Player) (p : Player) (id : ℕ) (g : Game)
      → IsSound true n ps g
      → ArePlaced n ps
      → IsFound p ps
      → id < n
      → Returns (IsArmed n) (find_arrows rand p id g)
  unfolding find_arrows armed
  find_arrows-IsArmed n ps p id g s a f h =
      let p' = armed p in
      let (same_u, same_place) = armed-same p in
      let qs = set_player p' ps in
      let g' : Game = record g { players = set_player p' g.players } in
      let s' = kept-IsSound true n ps p p' g s f same_u same_place in
      let in_room : is_lost n p' ≡ false =
        lost_same n p' p same_place ∙ find-false (is_lost n) p.u p ps a.0 f in
      read_room true n ps ps g s (IsArmed n) id _ h (λ r ok.
        Returns-if (IsArmed n) (holds e_arrows r) _ _
          (λ t.
            Returns-bind (IsSound true n qs) (IsArmed n) (alter_room id emptied g') _
              (alter_room-filled true n id qs qs e_nothing g' s' h)
              (λ g₁ s₁.
                Returns-bind (IsSound true n qs) (IsArmed n) (regen_obj rand e_arrows g₁) _
                  (regen_obj-IsMapped rand true n qs qs e_arrows g₁ s₁)
                  (λ g₂ s₂. (
                    qs,
                    s₂,
                    ArePlaced-set_player n p' ps a in_room,
                    IsFound-set_player p p' ps f same_u,
                  ))))
          (λ t. (ps, s, a, f)))

  find_ball-IsSound :
      (n : ℕ) (ps : List Player) (p : Player) (id : ℕ) (g : Game)
      → IsSound true n ps g
      → id < n
      → Returns (λ (r : Game × List Event). IsSound true n ps r.0) (find_ball rand p id g)
  unfolding find_ball
  find_ball-IsSound n ps p id g s h =
      let P : Game × List Event → Type 0 = λ r. IsSound true n ps r.0 in
      read_room true n ps ps g s P id _ h (λ r ok.
        Returns-if P (holds e_crystalball r) _ _
          (λ t.
            Returns-bind (IsSound true n ps) P (alter_room id emptied g) _
              (alter_room-filled true n id ps ps e_nothing g s h)
              (λ g₁ s₁.
                Returns-bind (IsSound true n ps) P (regen_obj rand e_crystalball g₁) _
                  (regen_obj-IsMapped rand true n ps ps e_crystalball g₁ s₁) (λ g₂ s₂. s₂)))
          (λ t. s))

  enter-IsState :
      (n : ℕ) (ps : List Player) (p : Player) (id : ℕ) (g : Game)
      → IsSound true n ps g
      → ArePlaced n ps
      → IsFound p ps
      → id < n
      → Returns IsState₁ (enter rand p id g)
  unfolding enter leave_room
  enter-IsState n ps p id g s a f h =
      let (i, e, k) = found_at n p ps a.0 f in
      let p' : Player = record p { location = some id } in
      let gone = delete (is_player p.u) ps in
      let qs = set_player p' ps in
      let placed : ArePlaced n qs = ArePlaced-set_player n p' ps a (ground (arith, h)) in
      Returns-bind (IsMapped true n gone ps) IsState₁ (leave_room p g) _
        (rw (e, leave_room)
          (leave-IsMapped true n i ps gone ps p g s k e (λ v j. standing-delete v j p ps f)))
        (λ g₁ (run, start, size, players, maze, w).
          let g₂ : Game = record g₁ { players = set_player p' g₁.players } in
          Returns-bind (IsSound true n qs) IsState₁
            (alter_room id (λ r. record r { players = r.players ++ p.u ∷ [] }) g₂) _
            (enter-IsMapped true n id gone qs qs p' g₂
              (run, start, size, ap (set_player p') players, maze, w) h refl
              (λ v j.
                omega (arith, standing-set_player v j p p' ps f refl, standing-delete v j p ps f)))
            (λ g₃ s₃.
              Returns-bind IsAny IsState₁ (look_player p' g₃) _
                (look_player-Returns true n qs qs g₃ s₃ p' id refl h)
                (λ seen _.
                  read_room true n qs qs g₃ s₃ IsState₁ id _ h (λ r ok. inl (n, qs, s₃, placed)))))

  lose-IsState :
      (n : ℕ) (ps : List Player) (p : Player) (said : List Event) (g : Game)
      → IsSound true n ps g
      → ArePlaced n ps
      → IsFound p ps
      → Returns IsState₁ (lose rand p said g)
  unfolding lose
  lose-IsState n ps p said g s a f =
      let qs = delete (is_player p.u) ps in
      Returns-bind (IsSound true n qs) IsState₁ (resign_player p g) _
        (resign_player-IsSound true n ps p g s a.0 f)
        (λ g₁ s₁.
          Returns-bind IsState₁ IsState₁ (check_last_person_alive g₁) _
            (check_last-IsState n qs g₁ s₁ (ArePlaced-delete n p.u ps a)) (λ r o. o))

  pub move_player-IsState :
      (n : ℕ) (ps : List Player) (p : Player) (target : ℤ) (g : Game)
      → IsSound true n ps g
      → ArePlaced n ps
      → IsFound p ps
      → Returns IsState₁ (move_player rand p target g)
  unfolding move_player
  move_player-IsState n ps p target g s a f =
      let (i, e, h) = found_at n p ps a.0 f in
      Returns-bind (λ near. near ≡ true → pos_part target < n) IsState₁ (adjacent_room p target g) _
        (adjacent_room-Returns true n ps ps g s p i target e h)
        (λ near below.
          Returns-if IsState₁ (not near) _ _ (λ t. inl (n, ps, s, a))
            (λ t.
              Returns-bind (IsCarried n ps) IsState₁ (carried rand p (pos_part target) g) _
                (carried-IsCarried n ps p (pos_part target) g s (below (ground arith)))
                (λ (id, g₁, bats) (k, s₁). read_room true n ps ps g₁ s₁ IsState₁ id _ k (λ r ok.
                  Returns-if IsState₁ (is_wumpus_at rand g₁.wumpus id) _ _
                    (λ t'. lose-IsState n ps p _ g₁ s₁ a f)
                    (λ t'.
                      Returns-if IsState₁ (holds e_pit r) _ _
                        (λ t''. lose-IsState n ps p _ g₁ s₁ a f)
                        (λ t''.
                          Returns-bind (IsArmed n) IsState₁ (find_arrows rand p id g₁) _
                            (find_arrows-IsArmed n ps p id g₁ s₁ a f k)
                            (λ (p', g₂, arrows) (qs, s₂, a₂, f₂).
                              Returns-bind (λ (r' : Game × List Event). IsSound true n qs r'.0)
                                IsState₁ (find_ball rand p' id g₂) _
                                (find_ball-IsSound n qs p' id g₂ s₂ k)
                                (λ (g₃, ball) s₃.
                                  Returns-bind IsState₁ IsState₁ (enter rand p' id g₃) _
                                    (enter-IsState n qs p' id g₃ s₃ a₂ f₂ k) (λ r' o. o)))))))))
