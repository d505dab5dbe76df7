-- ===== src/Wumpus/Maze/Start.antt =====
-- Building the maze and starting the game keep the game in order.
use Prim.Native.Nat.{zero}
use atheme_contrib_modules.Wumpus.Order.{
  IsOrderly, Holds, Holds-if, IsOrderly₁, Holds-read, Holds-bind, alter_room-IsOrderly,
  IsDistinct-set_player, end_game-IsOrderly,
}
use atheme_contrib_modules.Wumpus.Maze.{
  pick_exit, first_exit, add_exits, add_rooms, scatter, scatters, build_maze, place, start_game,
  init_game, avoid, blank,
}
use atheme_contrib_modules.Wumpus.{
  Game, Contents, Player, Room, room, drawn, exit_ids, e_nothing, alter_room, set_player, filled,
  e_wumpus, e_pit, look_player, end_game, e_bats, e_arrows, e_crystalball,
}
use atheme_contrib_modules.Prelude.{
  ℕ, List, suc, some, ◌∷◌, ◌%◌, if◌then◌else◌, zero, [], replicate, leb, ◌==◌, false, ltb, ◌++◌,
  length, ◌+◌, refl,
}

abbrev IsOrderlyExit : ℕ × Game → Type 0
IsOrderlyExit (_, g) = IsOrderly g

module _ (rand : ℕ → ℕ) where
  pick_exit-IsOrderly :
      (fuel self : ℕ) (ids : List ℕ) (g : Game)
      → IsOrderly g
      → Holds IsOrderlyExit (pick_exit rand fuel self ids g)
  unfolding pick_exit
  pick_exit-IsOrderly zero self ids g o = tt
  pick_exit-IsOrderly (suc fuel) self ids g o =
      let t = avoid self ids (rand g.draws % g.mazesize) in
      Holds-if IsOrderlyExit (t == self) _ _ (pick_exit-IsOrderly fuel self ids (drawn g) o) o

  first_exit-IsOrderly :
      (fuel self : ℕ) (ids : List ℕ) (g : Game)
      → IsOrderly g
      → Holds IsOrderlyExit (first_exit rand fuel self ids g)
  unfolding first_exit
  first_exit-IsOrderly fuel self ids g o =
      Holds-if IsOrderlyExit (rand g.draws % g.mazesize == self) _ _
        (pick_exit-IsOrderly fuel self ids (drawn g) o) o

  add_exits-IsOrderly :
      (j fuel self : ℕ) (g : Game) → IsOrderly g → Holds IsOrderly (add_exits rand j fuel self g)
  unfolding add_exits
  add_exits-IsOrderly zero fuel self g o = o
  add_exits-IsOrderly (suc j) fuel self g o = Holds-read IsOrderly (room self g) _ (λ r.
      Holds-read IsOrderly (exit_ids g r.exits) _ (λ ids.
        Holds-bind IsOrderlyExit IsOrderly (first_exit rand fuel self ids g) _
          (first_exit-IsOrderly fuel self ids g o)
          (λ e o₁.
            let link : Room → Room = λ r'. record r' { exits = r'.exits ++ e.0 ∷ [] } in
            Holds-bind IsOrderly IsOrderly (alter_room self link e.1) _
              (alter_room-IsOrderly self link e.1 o₁)
              (λ g₂ o₂. add_exits-IsOrderly j fuel self g₂ o₂))))

  add_rooms-IsOrderly :
      (left fuel i : ℕ) (g : Game) → IsOrderly g → Holds IsOrderly (add_rooms rand left fuel i g)
  unfolding add_rooms
  add_rooms-IsOrderly zero fuel i g o = o
  add_rooms-IsOrderly (suc left) fuel i g o =
      let clear : Room → Room =
        λ r. record { id = i; exits = []; contents = e_nothing; players = [] } in
      Holds-bind IsOrderly IsOrderly (alter_room i clear g) _ (alter_room-IsOrderly i clear g o)
        (λ g₁ o₁.
          Holds-bind IsOrderly IsOrderly (add_exits rand 3 fuel i g₁) _
            (add_exits-IsOrderly 3 fuel i g₁ o₁)
            (λ g₂ o₂. add_rooms-IsOrderly left fuel (i + 1) g₂ o₂))

  scatter-IsOrderly :
      (e : Contents) (odds left i : ℕ) (g : Game)
      → IsOrderly g
      → Holds IsOrderly (scatter rand e odds left i g)
  unfolding scatter
  scatter-IsOrderly e odds zero i g o = o
  scatter-IsOrderly e odds (suc left) i g o =
      Holds-if IsOrderly (rand g.draws % odds == 0) _ _
        (Holds-bind IsOrderly IsOrderly (alter_room i (filled e) (drawn g)) _
          (alter_room-IsOrderly i (filled e) (drawn g) o)
          (λ g₁ o₁. scatter-IsOrderly e odds left (i + 1) g₁ o₁))
        (scatter-IsOrderly e odds left (i + 1) (drawn g) o)

  scatters-IsOrderly :
      (passes : ℕ) (e : Contents) (odds size : ℕ) (g : Game)
      → IsOrderly g
      → Holds IsOrderly (scatters rand passes e odds size g)
  unfolding scatters
  scatters-IsOrderly zero e odds size g o = o
  scatters-IsOrderly (suc passes) e odds size g o =
      Holds-bind IsOrderly IsOrderly (scatter rand e odds size 0 g) _
        (scatter-IsOrderly e odds size 0 g o) (λ g₁ o₁. scatters-IsOrderly passes e odds size g₁ o₁)

  build_maze-IsOrderly :
      (fuel size : ℕ) (g : Game) → IsOrderly g → Holds IsOrderly₁ (build_maze rand fuel size g)
  unfolding build_maze
  build_maze-IsOrderly fuel size g o =
      let allocated : Game = record g {
        mazesize = size;
        rmemctx = some (replicate size (blank rand));
      } in
      Holds-if IsOrderly₁ (ltb size 10) _ _ o (
        Holds-bind IsOrderly IsOrderly₁ (add_rooms rand size fuel 0 allocated) _
          (add_rooms-IsOrderly size fuel 0 allocated o)
          (λ g₁ o₁.
            let w = rand g₁.draws % size in
            let g₁' : Game = record (drawn g₁) { wumpus = some w } in
            Holds-bind IsOrderly IsOrderly₁ (alter_room w (filled e_wumpus) g₁') _
              (alter_room-IsOrderly w (filled e_wumpus) g₁' o₁)
              (λ g₂ o₂.
                Holds-bind IsOrderly IsOrderly₁ (scatter rand e_pit 84 size 0 g₂) _
                  (scatter-IsOrderly e_pit 84 size 0 g₂ o₂)
                  (λ g₃ o₃.
                    Holds-bind IsOrderly IsOrderly₁ (scatters rand 2 e_bats 42 size g₃) _
                      (scatters-IsOrderly 2 e_bats 42 size g₃ o₃)
                      (λ g₄ o₄.
                        Holds-bind IsOrderly IsOrderly₁ (scatters rand 3 e_arrows 42 size g₄) _
                          (scatters-IsOrderly 3 e_arrows 42 size g₄ o₄)
                          (λ g₅ o₅.
                            let b = rand g₅.draws % size in
                            Holds-bind IsOrderly IsOrderly₁
                              (alter_room b (filled e_crystalball) (drawn g₅)) _
                              (alter_room-IsOrderly b (filled e_crystalball) (drawn g₅) o₅)
                              (λ g₆ o₆. Holds-read IsOrderly₁ g₆.rmemctx _ (λ rooms. o₆))))))))

  place-IsOrderly : (l : List Player) (g : Game) → IsOrderly g → Holds IsOrderly₁ (place rand l g)
  unfolding place
  place-IsOrderly [] g o = o
  place-IsOrderly (p ∷ l) g o =
      let i = rand g.draws % g.mazesize in
      let p' : Player = record p { location = some i } in
      let g' : Game = record (drawn g) { players = set_player p' g.players } in
      let add : Room → Room = λ r. record r { players = r.players ++ p.u ∷ [] } in
      Holds-bind IsOrderly IsOrderly₁ (alter_room i add g') _
        (alter_room-IsOrderly i add g' (o.0, IsDistinct-set_player p' g.players o.1))
        (λ g₁ o₁. Holds-read IsOrderly₁ (look_player p' g₁) _ (λ seen.
          Holds-bind IsOrderly₁ IsOrderly₁ (place rand l g₁) _ (place-IsOrderly l g₁ o₁)
            (λ r o₂. o₂)))

  pub start_game-IsOrderly :
      (fuel : ℕ) (g : Game) → IsOrderly g → Holds IsOrderly₁ (start_game rand fuel g)
  unfolding start_game init_game
  start_game-IsOrderly fuel g o =
      let size = if leb 300 g.wantsize then 300 else g.wantsize in
      let g' : Game = record g { starting = false; wantsize = size } in
      Holds-if IsOrderly₁ (ltb (length g.players) 2) _ _ o (
        Holds-bind IsOrderly₁ IsOrderly₁ (build_maze rand fuel size g') _
          (build_maze-IsOrderly fuel size g' o)
          (λ b o₁.
            Holds-if IsOrderly₁ b.1 _ _
              (Holds-bind IsOrderly₁ IsOrderly₁ (place rand b.0.players b.0) _
                (place-IsOrderly b.0.players b.0 o₁) (λ r o₂. (refl, o₂.1)))
              (Holds-bind IsOrderly₁ IsOrderly₁ (end_game b.0) _ (end_game-IsOrderly b.0 o₁)
                (λ r o₂. o₂))))
