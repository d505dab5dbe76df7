-- ===== src/Wumpus/Sound.antt =====
-- The state of the game that no step leaves by a fault: what the pointers between the rooms and the
-- players are, as counts of the entries of the two kinds of lists.
pub mod Players
pub mod Mazes
pub mod Resigned
pub mod Views
pub mod Walks
pub mod Paths
pub mod Entries
pub mod Built
pub mod Begun
pub mod Placed
pub mod Faults
pub mod Kept
pub mod Restarts
use atheme_contrib_modules.Services.Keyed.{any, find}
use atheme_contrib_modules.Services.Metadata.{is_some}
use atheme_contrib_modules.Wumpus.{Player, Game, ◌>>=◌, is_player, Room}
use atheme_contrib_modules.Prelude.{
  Option, ℕ, Bool, some, ◌≡◌, List, false, true, if◌then◌else◌, ◌∷◌, not, ◌⊎◌, ◌==◌, refl, ltb, ◌<◌,
  length, ◌+◌, ◌&&◌, [], get_elem?,
}
use mathlib.Core.Option.{none, IsSome}
use atheme_contrib_modules.Wumpus.Order.{IsDistinct}

-- A property of the result, and that there is one.
abbrev pub Returns {ℓ} : {A : Type ℓ} → (A → Type 0) → Option A → Type 0
Returns P none = ⊥
Returns P (some a) = P a

pub Returns-bind {ℓ κ} :
    {A : Type ℓ} {B : Type κ} (Q : A → Type 0) (P : B → Type 0) (m : Option A) (f : A → Option B)
    → Returns Q m
    → ((a : A) → Q a → Returns P (f a))
    → Returns P (m >>= f)
Returns-bind Q P none f h k = absurd h
Returns-bind Q P (some a) f h k = k a h

-- A value that is there.
pub Returns-read {ℓ κ} :
    {A : Type ℓ} {B : Type κ} (P : B → Type 0) (m : Option A) (a : A) (f : A → Option B)
    → m ≡ some a
    → Returns P (f a)
    → Returns P (m >>= f)
Returns-read P m a f e h = rw e h

pub Returns-if {ℓ} :
    {A : Type ℓ} (P : A → Type 0) (b : Bool) (m n : Option A)
    → (b ≡ true → Returns P m)
    → (b ≡ false → Returns P n)
    → Returns P (if b then m else n)
Returns-if P true m n h k = h refl
Returns-if P false m n h k = k refl

-- How often a number stands in a list.
unfoldable pub times : ℕ → List ℕ → ℕ
times v [] = 0
times v (u ∷ l) = (if u == v then 1 else 0) + times v l

abbrev pub is_in : Option ℕ → ℕ → Bool
is_in none j = false
is_in (some i) j = i == j

-- Whether that player is of user `v` and in room `j`, and how many such players there are.
abbrev pub stands : ℕ → ℕ → Player → ℕ
stands v j p = if is_player v p && is_in p.location j then 1 else 0

unfoldable pub standing : ℕ → ℕ → List Player → ℕ
standing v j [] = 0
standing v j (p ∷ l) = stands v j p + standing v j l

-- The indices in a list are below `n`.
unfoldable pub within : ℕ → List ℕ → Bool
within n [] = true
within n (e ∷ l) = ltb e n && within n l

-- Room `j` of `n`: it has its number and an exit, the exits lead to rooms, and its list holds just the
-- players who are in it, once each.
abbrev pub IsRoom : ℕ → List Player → ℕ → Room → Type 0
IsRoom n ps j r =
    (r.id ≡ j)
    × (0 < length r.exits)
    × (within n r.exits ≡ true)
    × ((v : ℕ) → times v r.players ≡ standing v j ps)

abbrev pub IsMaze : ℕ → List Player → List Room → Type 0
IsMaze n ps rooms =
    (length rooms ≡ n) × ((j : ℕ) (r : Room) → get_elem? rooms j ≡ some r → IsRoom n ps j r)

-- A player who is in no room of the maze.
abbrev pub is_lost : ℕ → Player → Bool
is_lost n p = elim p.location [ none ↦ true | some i ↦ not (ltb i n) ]

-- A game with a maze of `n` rooms, running if `b`: the players are `l`, and the lists of the rooms are
-- those for `ps`.
abbrev pub IsMapped : Bool → ℕ → List Player → List Player → Game → Type 0
IsMapped b n ps l g =
    (g.running ≡ b)
    × (g.starting ≡ false)
    × (g.mazesize ≡ n)
    × (g.players ≡ l)
    × ((rooms : List Room) × (g.rmemctx ≡ some rooms) × IsMaze n ps rooms)
    × ((w : ℕ) × (g.wumpus ≡ some w) × (w < n))

-- A game in which the rooms and the players agree.
abbrev pub IsSound : Bool → ℕ → List Player → Game → Type 0
IsSound b n ps = IsMapped b n ps ps

-- No maze, and so no player in a room.
abbrev pub is_placed : Player → Bool
is_placed p = is_some p.location

abbrev pub IsIdle : Game → Type 0
IsIdle g =
    (g.running ≡ false)
    × (g.rmemctx ≡ none)
    × (any is_placed g.players ≡ false)
    × IsDistinct g.players

-- The players of a game that runs: each is in a room of the maze, and is of a user of his own.
abbrev pub ArePlaced : ℕ → List Player → Type 0
ArePlaced n ps = (any (is_lost n) ps ≡ false) × IsDistinct ps

-- The game between two events: it runs, or there is no maze.
abbrev pub IsState : Game → Type 0
IsState g = ((n : ℕ) × (ps : List Player) × IsSound true n ps g × ArePlaced n ps) ⊎ IsIdle g

-- The player that is found for his user.
abbrev pub IsFound : Player → List Player → Type 0
IsFound p ps = find (is_player p.u) ps ≡ some p
