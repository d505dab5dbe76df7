-- ===== src/Wumpus/Maze/Exits.antt =====
-- The search for an exit ends once rand() gives a number that will do.
use Prim.Native.Nat.{zero}
use atheme_contrib_modules.Wumpus.{Game, drawn}
use atheme_contrib_modules.Services.Keyed.{any}
use atheme_contrib_modules.Wumpus.Maze.{avoid, pick_exit}
use atheme_contrib_modules.Prelude.{
  ℕ, List, ◌≡◌, ◌∷◌, ◌<◌, ◌==◌, arith, false, ◌+◌, [], ==_iff, ◌%◌, some, refl, suc, Bool-cases,
  inr, inl, zero,
}

avoid_self : (self : ℕ) (ids : List ℕ) → avoid self ids self ≡ self
unfolding avoid
avoid_self self [] = refl
avoid_self self (n ∷ ids) = ground (arith, avoid_self self ids)

-- What the loop over the exits lets pass is unchanged and no exit yet.
avoid_fresh :
    (self : ℕ) (ids : List ℕ) (t : ℕ)
    → (avoid self ids t == self) ≡ false
    → (avoid self ids t ≡ t) × (any (λ n. n == t) ids ≡ false)
unfolding avoid any
avoid_fresh self [] t h = (refl, refl)
avoid_fresh self (n ∷ ids) t h =
    ground (arith, avoid_self self ids, avoid_fresh self ids t, ==_iff self self)

avoid_pass :
    (self : ℕ) (ids : List ℕ) (t : ℕ) → any (λ n. n == t) ids ≡ false → avoid self ids t ≡ t
unfolding avoid any
avoid_pass self [] t h = refl
avoid_pass self (n ∷ ids) t h = ground (arith, avoid_pass self ids t)

module _ (rand : ℕ → ℕ) where
  pick_exit-passes :
      (fuel k self : ℕ) (ids : List ℕ) (g : Game)
      → k < fuel
      → (avoid self ids (rand (g.draws + k) % g.mazesize) == self) ≡ false
      → (t : ℕ) × (h : Game) × (pick_exit rand fuel self ids g ≡ some (t, h))
        × ((t == self) ≡ false)
        × (any (λ n. n == t) ids ≡ false)
  unfolding pick_exit
  pick_exit-passes zero k self ids g l e = elim l [ ]
  pick_exit-passes (suc fuel) zero self ids g l e =
      let here : g.draws + 0 ≡ g.draws = omega arith in
      let e' = rw here at e in
      let f = avoid_fresh self ids (rand g.draws % g.mazesize) e' in
      (avoid self ids (rand g.draws % g.mazesize), drawn g, rw e' refl, e', rw f.0 f.1)
  pick_exit-passes (suc fuel) (suc k) self ids g l e =
      elim (Bool-cases (avoid self ids (rand g.draws % g.mazesize) == self)) [
        | inr e' ↦
            let f = avoid_fresh self ids (rand g.draws % g.mazesize) e' in
            (avoid self ids (rand g.draws % g.mazesize), drawn g, rw e' refl, e', rw f.0 f.1)
        | inl e' ↦
            let same : g.draws + suc k ≡ g.draws + 1 + k = omega arith in
            let (t, h, r, s, f) =
              pick_exit-passes fuel k self ids (drawn g) (omega arith) (rw same at e) in
            (t, h, rw e' r, s, f)
      ]

  -- If one of the next `fuel` numbers is neither that of the room nor that of an exit, the search
  -- ends within that fuel, with a number that is neither.
  pub pick_exit-returns :
      (fuel k self : ℕ) (ids : List ℕ) (g : Game)
      → k < fuel
      → (rand (g.draws + k) % g.mazesize == self) ≡ false
      → any (λ n. n == rand (g.draws + k) % g.mazesize) ids ≡ false
      → (t : ℕ) × (h : Game) × (pick_exit rand fuel self ids g ≡ some (t, h))
        × ((t == self) ≡ false)
        × (any (λ n. n == t) ids ≡ false)
  pick_exit-returns fuel k self ids g l e f =
      pick_exit-passes fuel k self ids g l
        (rw (avoid_pass self ids (rand (g.draws + k) % g.mazesize) f) e)
