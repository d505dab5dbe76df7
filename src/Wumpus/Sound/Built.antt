-- ===== src/Wumpus/Sound/Built.antt =====
-- build_maze() makes a maze: every room has its number and three exits to rooms of the maze.
use atheme_contrib_modules.Wumpus.Sound.Walks.{mod_below}
use atheme_contrib_modules.Wumpus.Sound.Mazes.{get_elem?-some, rooms-set}
use atheme_contrib_modules.Wumpus.Order.{Holds, Holds-if, Holds-read, Holds-bind}
use atheme_contrib_modules.Wumpus.Sound.{within, Returns, Returns-read}
use atheme_contrib_modules.Wumpus.Maze.{avoid, pick_exit, first_exit, add_exits, add_rooms, blank}
use atheme_contrib_modules.Wumpus.{alter_room, Room, room, Game, Player, drawn, exit_ids}
use atheme_contrib_modules.Prelude.{
  ℕ, List, Bool, ◌<◌, ◌≡◌, not, ◌∷◌, true, ◌&&◌, ◌%◌, ltb, false, [], sym, ◌==◌, if◌then◌else◌,
  ◌++◌, ◌||◌, some, arith, suc, length, get_elem?, set, length-set, ◌∙◌, length-append, Option, ◌+◌,
  refl, ==_iff,
}
use mathlib.Core.Option.{none}
use mathlib.Core.Path.{subst}
use Prim.Native.Nat.{zero}

-- The first `k` rooms are done.
abbrev pub are_done : ℕ → ℕ → Room → Bool
are_done k j r = not (ltb j k) || (r.id == j && length r.exits == 3)

-- Room `k` has `m` exits so far.
abbrev is_begun : ℕ → ℕ → ℕ → Room → Bool
is_begun k m j r = are_done k j r && (not (j == k) || (r.id == k && length r.exits == m))

abbrev pub IsBuilding : ℕ → (ℕ → Room → Bool) → List Player → Game → Type 0
IsBuilding n t l g =
    (g.running ≡ false)
    × (g.starting ≡ false)
    × (g.mazesize ≡ n)
    × (g.players ≡ l)
    × ((rooms : List Room) × (g.rmemctx ≡ some rooms)
        × (length rooms ≡ n)
        × ((j : ℕ) (r : Room)
            → get_elem? rooms j ≡ some r
            → (r.players ≡ []) × (within n r.exits ≡ true) × (t j r ≡ true)))

alter_room-IsBuilding :
    (n i : ℕ) (t t' : ℕ → Room → Bool) (l : List Player) (f : Room → Room) (g : Game)
    → IsBuilding n t l g
    → i < n
    → ((r : Room)
        → r.players ≡ []
        → within n r.exits ≡ true
        → t i r ≡ true
        → ((f r).players ≡ []) × (within n (f r).exits ≡ true) × (t' i (f r) ≡ true))
    → ((j : ℕ) (x : Room) → (i == j) ≡ false → t j x ≡ true → t' j x ≡ true)
    → Returns (IsBuilding n t' l) (alter_room i f g)
unfolding alter_room room
alter_room-IsBuilding n i t t' l f g (run, start, size, players, (rooms, e, len, all)) h now
      others =
    let (r, k) = get_elem?-some rooms i (rw len h) in
    let (a, b, c) = all i r k in
    let P : (ℕ → Room → Bool) → ℕ → Room → Type 0 =
      λ q j x. (x.players ≡ []) × (within n x.exits ≡ true) × (q j x ≡ true) in
    let after =
      rooms-set (P t) (P t') rooms i (f r) all (rw len h) (now r a b c)
        (λ j x apart (a', b', c'). (a', b', others j x apart c')) in
    Returns-read (IsBuilding n t' l) g.rmemctx rooms _ e (
      Returns-read (IsBuilding n t' l) (room i g) r _ (rw (e, room) k) (
        run,
        start,
        size,
        players,
        (set rooms i (f r), refl, length-set rooms i (f r) ∙ len, after),
      ))

avoid-lt : (n self : ℕ) (ids : List ℕ) (t : ℕ) → self < n → t < n → avoid self ids t < n
unfolding avoid
avoid-lt n self [] t h k = k
avoid-lt n self (i ∷ ids) t h k =
    avoid-lt n self ids (if i == t then self else t) h (ground (arith, h, k))

within-append : (n t : ℕ) (l : List ℕ) → within n l ≡ true → t < n → within n (l ++ t ∷ []) ≡ true
unfolding within
within-append n t [] h k = ground (arith, k)
within-append n t (x ∷ l) h k = ground (arith, within-append n t l)

pub none_within : (n : ℕ) → within n [] ≡ true
unfolding within
none_within n = refl

-- One more exit.
linked :
    (k m t : ℕ) (r : Room)
    → is_begun k m k r ≡ true
    → is_begun k (suc m) k (record r { exits = r.exits ++ t ∷ [] }) ≡ true
linked k m t r h = ground (arith, h, length-append r.exits (t ∷ []))

-- A room with three exits is done.
next_done : (k j : ℕ) (r : Room) → is_begun k 3 j r ≡ true → are_done (k + 1) j r ≡ true
next_done k j r h = ground (arith, h, ==_iff j k)

next_room :
    (k : ℕ) (l : List Player) (n : ℕ) (g : Game)
    → IsBuilding n (is_begun k 3) l g
    → IsBuilding n (are_done (k + 1)) l g
next_room k l n g (run, start, size, players, (rooms, e, len, all)) = (
  run,
  start,
  size,
  players,
  (rooms, e, len, λ j r f. let (a, b, c) = all j r f in (a, b, next_done k j r c)),
)

-- What is there has the property.
pub Holds-of {ℓ} : {A : Type ℓ} (P : A → Type 0) (m : Option A) → Returns P m → Holds P m
Holds-of P none h = tt
Holds-of P (some a) h = h

module _ (rand : ℕ → ℕ) where
  abbrev IsExit : ℕ → (ℕ → Room → Bool) → List Player → ℕ × Game → Type 0
  IsExit n t l (e, g) = (e < n) × IsBuilding n t l g

  rand_below : (n m : ℕ) (g : Game) → g.mazesize ≡ n → 0 < n → m % g.mazesize < n
  rand_below n m g size h = subst (λ k. m % k < n) (sym size) (mod_below n m h)

  pick_exit-IsExit :
      (n fuel self : ℕ) (t : ℕ → Room → Bool) (l : List Player) (ids : List ℕ) (g : Game)
      → self < n
      → IsBuilding n t l g
      → Holds (IsExit n t l) (pick_exit rand fuel self ids g)
  unfolding pick_exit
  pick_exit-IsExit n zero self t l ids g h s = tt
  pick_exit-IsExit n (suc fuel) self t l ids g h s =
      let e = avoid self ids (rand g.draws % g.mazesize) in
      let below = rand_below n (rand g.draws) g s.2 (omega (arith, h)) in
      Holds-if (IsExit n t l) (e == self) _ _ (pick_exit-IsExit n fuel self t l ids (drawn g) h s)
        (avoid-lt n self ids (rand g.draws % g.mazesize) h below, s)

  first_exit-IsExit :
      (n fuel self : ℕ) (t : ℕ → Room → Bool) (l : List Player) (ids : List ℕ) (g : Game)
      → self < n
      → IsBuilding n t l g
      → Holds (IsExit n t l) (first_exit rand fuel self ids g)
  unfolding first_exit
  first_exit-IsExit n fuel self t l ids g h s =
      Holds-if (IsExit n t l) (rand g.draws % g.mazesize == self) _ _
        (pick_exit-IsExit n fuel self t l ids (drawn g) h s)
        (rand_below n (rand g.draws) g s.2 (omega (arith, h)), s)

  -- `left` more exits for room `self`, which has `m`.
  add_exits-IsBuilding :
      (n left fuel self m : ℕ) (l : List Player) (g : Game)
      → self < n
      → left + m ≡ 3
      → IsBuilding n (is_begun self m) l g
      → Holds (IsBuilding n (is_begun self 3) l) (add_exits rand left fuel self g)
  unfolding add_exits
  add_exits-IsBuilding n zero fuel self m l g h e s =
      subst (λ k. IsBuilding n (is_begun self k) l g) (omega (arith, e)) s
  add_exits-IsBuilding n (suc left) fuel self m l g h e s =
      Holds-read (IsBuilding n (is_begun self 3) l) (room self g) _ (λ r.
        Holds-read (IsBuilding n (is_begun self 3) l) (exit_ids g r.exits) _ (λ ids.
          Holds-bind (IsExit n (is_begun self m) l) (IsBuilding n (is_begun self 3) l)
            (first_exit rand fuel self ids g) _
            (first_exit-IsExit n fuel self (is_begun self m) l ids g h s)
            (λ (t, g₁) (k, s₁).
              Holds-bind (IsBuilding n (is_begun self (suc m)) l) (IsBuilding n (is_begun self 3) l)
                (alter_room self (λ r'. record r' { exits = r'.exits ++ t ∷ [] }) g₁) _
                (Holds-of (IsBuilding n (is_begun self (suc m)) l) _ (
                  alter_room-IsBuilding n self (is_begun self m) (is_begun self (suc m)) l
                    (λ r'. record r' { exits = r'.exits ++ t ∷ [] }) g₁ s₁ h
                    (λ r' a b c. (a, within-append n t r'.exits b k, linked self m t r' c))
                    (λ j x apart c. ground (arith, c, apart))))
                (λ g₂ s₂.
                  add_exits-IsBuilding n left fuel self (suc m) l g₂ h (omega (arith, e)) s₂))))

  pub add_rooms-IsBuilding :
      (n left fuel i : ℕ) (l : List Player) (g : Game)
      → i + left ≡ n
      → IsBuilding n (are_done i) l g
      → Holds (IsBuilding n (are_done n) l) (add_rooms rand left fuel i g)
  unfolding add_rooms
  add_rooms-IsBuilding n zero fuel i l g e s =
      subst (λ k. IsBuilding n (are_done k) l g) (omega (arith, e)) s
  add_rooms-IsBuilding n (suc left) fuel i l g e s =
      let done = IsBuilding n (are_done n) l in
      let h : i < n = omega (arith, e) in
      Holds-bind (IsBuilding n (is_begun i 0) l) done
        (alter_room i (λ r. record (blank rand) { id = i }) g) _
        (Holds-of (IsBuilding n (is_begun i 0) l) _ (
          alter_room-IsBuilding n i (are_done i) (is_begun i 0) l
            (λ r. record (blank rand) { id = i }) g s h
            (λ r a b c. (refl, none_within n, ground arith))
            (λ j x apart c. ground (arith, c, apart))))
        (λ g₁ s₁.
          Holds-bind (IsBuilding n (is_begun i 3) l) done (add_exits rand 3 fuel i g₁) _
            (add_exits-IsBuilding n 3 fuel i 0 l g₁ h refl s₁)
            (λ g₂ s₂.
              add_rooms-IsBuilding n left fuel (i + 1) l g₂ (omega (arith, e))
                (next_room i l n g₂ s₂)))
