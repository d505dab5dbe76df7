-- ===== src/Wumpus/Sound/Begun.antt =====
-- The start of a game: the maze is filled, and the players are placed.
use atheme_contrib_modules.Wumpus.Sound.Walks.{mod_below}
use atheme_contrib_modules.Wumpus.Sound.Mazes.{get_elem?-lt, alter_room-filled}
use atheme_contrib_modules.Wumpus.Order.{Holds, Holds-if, Holds-bind, Holds-read}
use atheme_contrib_modules.Wumpus.Sound.Built.{
  IsBuilding, are_done, Holds-of, add_rooms-IsBuilding, none_within,
}
use atheme_contrib_modules.Wumpus.{
  Player, Contents, Game, drawn, alter_room, filled, e_wumpus, e_pit, e_bats, e_arrows,
  e_crystalball,
}
use atheme_contrib_modules.Wumpus.Maze.{scatter, scatters, build_maze, blank, add_rooms}
use atheme_contrib_modules.Services.Keyed.{any}
use atheme_contrib_modules.Wumpus.Sound.{standing, times, is_placed, IsSound, within}
use atheme_contrib_modules.Prelude.{
  ℕ, [], List, ◌≡◌, refl, false, Bool, ◌+◌, ◌∷◌, ◌⊎◌, arith, suc, some, ◌<◌, replicate, sym, ◌%◌,
  get_elem?, Bool-cases, ◌==◌, ap, ltb, inl, ◌∙◌, inr, length-replicate, ==_iff, true,
}
use mathlib.Core.Option.{some_inj}
use mathlib.Core.Path.{subst}
use Prim.Native.Nat.{zero}

here_none : (v j : ℕ) → standing v j [] ≡ 0
unfolding standing
here_none v j = refl

times_none : (v : ℕ) → times v [] ≡ 0
unfolding times
times_none v = refl

-- Nobody is anywhere.
here_unplaced : (v j : ℕ) (l : List Player) → any is_placed l ≡ false → standing v j l ≡ 0
unfolding standing any
here_unplaced v j [] h = refl
here_unplaced v j (p ∷ l) h = ground (arith, here_unplaced v j l)

replicate_all {ℓ} : {A : Type ℓ} (n j : ℕ) (x y : A) → get_elem? (replicate n x) j ≡ some y → x ≡ y
replicate_all zero j x y e = cc
replicate_all (suc n) zero x y e = some_inj.0 e
replicate_all (suc n) (suc j) x y e = replicate_all n j x y e

module _ (rand : ℕ → ℕ) where
  -- A maze that is done, with a wumpus in it.
  built-IsMapped :
      (n w : ℕ) (l : List Player) (g : Game)
      → IsBuilding n (are_done n) l g
      → w < n
      → any is_placed l ≡ false
      → IsSound false n l (record (drawn g) { wumpus = some w })
  built-IsMapped n w l g (run, start, size, players, (rooms, e, len, all)) h u = (
    run,
    start,
    size,
    players,
    (
      rooms,
      e,
      (
        len,
        λ j r f.
            let (a, b, c) = all j r f in
            let below : j < n = rw (sym len) (get_elem?-lt rooms j r f) in
            (
              (==_iff r.id j).0 (ground (arith, c, below)),
              ground (arith, c, below),
              b,
              λ v. ap (times v) a ∙ times_none v ∙ sym (here_unplaced v j l u),
            ),
      ),
    ),
    (w, refl, h),
  )

  scatter-IsSound :
      (n : ℕ) (e : Contents) (odds left i : ℕ) (l : List Player) (g : Game)
      → i + left ≡ n
      → IsSound false n l g
      → Holds (IsSound false n l) (scatter rand e odds left i g)
  unfolding scatter
  scatter-IsSound n e odds zero i l g k s = s
  scatter-IsSound n e odds (suc left) i l g k s =
      let P = IsSound false n l in
      Holds-if P (rand g.draws % odds == 0) _ _
        (Holds-bind P P (alter_room i (filled e) (drawn g)) _
          (Holds-of P _ (alter_room-filled false n i l l e (drawn g) s (omega (arith, k))))
          (λ g₁ s₁. scatter-IsSound n e odds left (i + 1) l g₁ (omega (arith, k)) s₁))
        (scatter-IsSound n e odds left (i + 1) l (drawn g) (omega (arith, k)) s)

  scatters-IsSound :
      (n passes : ℕ) (e : Contents) (odds : ℕ) (l : List Player) (g : Game)
      → IsSound false n l g
      → Holds (IsSound false n l) (scatters rand passes e odds n g)
  unfolding scatters
  scatters-IsSound n zero e odds l g s = s
  scatters-IsSound n (suc passes) e odds l g s =
      Holds-bind (IsSound false n l) (IsSound false n l) (scatter rand e odds n 0 g) _
        (scatter-IsSound n e odds n 0 l g (omega arith) s)
        (λ g₁ s₁. scatters-IsSound n passes e odds l g₁ s₁)

  -- What build_maze() leaves for players who are in no room.
  abbrev pub IsMade : List Player → Game × Bool → Type 0
  IsMade l (g, built) = ((n : ℕ) × IsSound false n l g) ⊎ ((built ≡ false) × (g.players ≡ l))

  pub build_maze-IsMade :
      (fuel n : ℕ) (l : List Player) (g : Game)
      → g.running ≡ false
      → g.starting ≡ false
      → g.players ≡ l
      → any is_placed l ≡ false
      → Holds (IsMade l) (build_maze rand fuel n g)
  unfolding build_maze
  build_maze-IsMade fuel n l g run start players u =
      let P = IsSound false n l in
      let allocated : Game = record g { mazesize = n; rmemctx = some (replicate n (blank rand)) } in
      elim (Bool-cases (ltb n 10)) [
        | inl small ↦ rw small (inr (refl, players))
        | inr big ↦
            let pos_n : 0 < n = ground (arith, big) in
            rw big (
              Holds-bind (IsBuilding n (are_done n) l) (IsMade l)
                (add_rooms rand n fuel 0 allocated) _
                (add_rooms-IsBuilding rand n n fuel 0 l allocated (omega arith) (
                  run,
                  start,
                  refl,
                  players,
                  (
                    replicate n (blank rand),
                    refl,
                    length-replicate n (blank rand),
                    λ j r f.
                        subst
                          (λ x.
                            (x.players ≡ []) × (within n x.exits ≡ true) × (are_done 0 j x ≡ true))
                          (replicate_all n j (blank rand) r f) (refl, none_within n, ground arith),
                  ),
                ))
                (λ g₁ s₁.
                  let w = rand g₁.draws % n in
                  let below : w < n = mod_below n (rand g₁.draws) pos_n in
                  Holds-bind P (IsMade l)
                    (alter_room w (filled e_wumpus) (record (drawn g₁) { wumpus = some w })) _
                    (Holds-of P _ (
                      alter_room-filled false n w l l e_wumpus
                        (record (drawn g₁) { wumpus = some w }) (built-IsMapped n w l g₁ s₁ below u)
                        below))
                    (λ g₂ s₂.
                      Holds-bind P (IsMade l) (scatter rand e_pit 84 n 0 g₂) _
                        (scatter-IsSound n e_pit 84 n 0 l g₂ (omega arith) s₂)
                        (λ g₃ s₃.
                          Holds-bind P (IsMade l) (scatters rand 2 e_bats 42 n g₃) _
                            (scatters-IsSound n 2 e_bats 42 l g₃ s₃)
                            (λ g₄ s₄.
                              Holds-bind P (IsMade l) (scatters rand 3 e_arrows 42 n g₄) _
                                (scatters-IsSound n 3 e_arrows 42 l g₄ s₄)
                                (λ g₅ s₅.
                                  let b = rand g₅.draws % n in
                                  Holds-bind P (IsMade l)
                                    (alter_room b (filled e_crystalball) (drawn g₅)) _
                                    (Holds-of P _ (
                                      alter_room-filled false n b l l e_crystalball (drawn g₅) s₅
                                        (mod_below n (rand g₅.draws) pos_n)))
                                    (λ g₆ s₆.
                                      Holds-read (IsMade l) g₆.rmemctx _
                                        (λ rooms. inl (n, s₆)))))))))
      ]
