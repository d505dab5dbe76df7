-- ===== src/Wumpus/Order.antt =====
-- What every step of the game keeps: the anger of the wumpus, and one player for each user.
use atheme_contrib_modules.Services.Database.{◌>>=◌}
use mathlib.Core.Bool.{true, false}
use mathlib.Core.Option.{none}
use atheme_contrib_modules.Services.Keyed.{any, delete, any-append}
use atheme_contrib_modules.Wumpus.{
  Game, Player, set_player, alter_room, leave_room, resign_player, resign_players, end_game,
  check_last_person_alive, is_player, Room, without, room,
}
use atheme_contrib_modules.Prelude.{
  ℕ, List, Option, Bool, some, if◌then◌else◌, none, true, not, ◌∷◌, ◌≡◌, false, [], arith, ◌||◌,
  refl, ◌*◌, ==_iff, length, ◌++◌, ◌+◌, ◌==◌, ◌&&◌, leb, Option-cases, inl, inr,
}

-- The wumpus moves faster the more it was hit, while the game runs.
abbrev pub is_tuned : Game → Bool
is_tuned g = not g.running || (3 * g.wump_hp + 90 == 5 * g.speed && leb 5 g.wump_hp)

-- No two players are of one user.
abbrev pub IsDistinct : List Player → Type 0
IsDistinct [] = Unit {0}
IsDistinct (p ∷ l) = (any (is_player p.u) l ≡ false) × IsDistinct l

abbrev pub IsOrderly : Game → Type 0
IsOrderly g = (is_tuned g ≡ true) × IsDistinct g.players

-- A property of the result, if there is one.
abbrev pub Holds {ℓ} : {A : Type ℓ} → (A → Type 0) → Option A → Type 0
Holds P none = Unit {0}
Holds P (some a) = P a

pub Holds-bind {ℓ κ} :
    {A : Type ℓ} {B : Type κ} (Q : A → Type 0) (P : B → Type 0) (m : Option A) (f : A → Option B)
    → Holds Q m
    → ((a : A) → Q a → Holds P (f a))
    → Holds P (m >>= f)
Holds-bind Q P none f h k = tt
Holds-bind Q P (some a) f h k = k a h

-- A value that is only read.
pub Holds-read {ℓ κ} :
    {A : Type ℓ} {B : Type κ} (P : B → Type 0) (m : Option A) (f : A → Option B)
    → ((a : A) → Holds P (f a))
    → Holds P (m >>= f)
Holds-read P none f k = tt
Holds-read P (some a) f k = k a

pub Holds-if {ℓ} :
    {A : Type ℓ} (P : A → Type 0) (b : Bool) (m n : Option A)
    → Holds P m
    → Holds P n
    → Holds P (if b then m else n)
Holds-if P true m n h k = h
Holds-if P false m n h k = k

pub any-delete-false :
    (q : Player → Bool) (u : ℕ) (l : List Player)
    → any q l ≡ false
    → any q (delete (is_player u) l) ≡ false
unfolding any delete
any-delete-false q u [] h = h
any-delete-false q u (p ∷ l) h = ground (arith, any-delete-false q u l)

pub IsDistinct-delete :
    (u : ℕ) (l : List Player) → IsDistinct l → IsDistinct (delete (is_player u) l)
unfolding delete any
IsDistinct-delete u [] d = d
IsDistinct-delete u (p ∷ l) d =
    ground (arith, IsDistinct-delete u l d.1, any-delete-false (is_player p.u) u l)

any-set_player :
    (v : ℕ) (p : Player) (l : List Player)
    → any (is_player v) (set_player p l) ≡ any (is_player v) l
unfolding set_player any
any-set_player v p [] = refl
any-set_player v p (q ∷ l) = ground (arith, any-set_player v p l)

pub IsDistinct-set_player :
    (p : Player) (l : List Player) → IsDistinct l → IsDistinct (set_player p l)
unfolding set_player any
IsDistinct-set_player p [] d = d
IsDistinct-set_player p (q ∷ l) d =
    ground
      (arith, IsDistinct-set_player p l d.1, any-set_player q.u p l, ==_iff p.u q.u, ==_iff q.u p.u)

pub IsDistinct-append :
    (p : Player) (l : List Player)
    → any (is_player p.u) l ≡ false
    → IsDistinct l
    → IsDistinct (l ++ p ∷ [])
unfolding any
IsDistinct-append p [] h d = (refl, tt)
IsDistinct-append p (q ∷ l) h d = ground (
  arith,
  IsDistinct-append p l,
  any-append (is_player q.u) l (p ∷ []),
  ==_iff p.u q.u,
  ==_iff q.u p.u,
)

-- The game in the result of a step, with its events or without.
abbrev pub IsOrderly₁ {ℓ} : {A : Type ℓ} → Game × A → Type 0
IsOrderly₁ (g, _) = IsOrderly g

pub alter_room-IsOrderly :
    (i : ℕ) (f : Room → Room) (g : Game) → IsOrderly g → Holds IsOrderly (alter_room i f g)
unfolding alter_room
alter_room-IsOrderly i f g o =
    Holds-read IsOrderly g.rmemctx _ (λ rooms. Holds-read IsOrderly (room i g) _ (λ r. o))

pub leave_room-IsOrderly : (p : Player) (g : Game) → IsOrderly g → Holds IsOrderly (leave_room p g)
unfolding leave_room
leave_room-IsOrderly p g o = elim (Option-cases p.location) [
  | inl e ↦ rw (e, leave_room) o
  | inr (i, e) ↦ rw (e, leave_room) (alter_room-IsOrderly i (without p.u) g o)
]

pub resign_player-IsOrderly :
    (p : Player) (g : Game) → IsOrderly g → Holds IsOrderly (resign_player p g)
unfolding resign_player
resign_player-IsOrderly p g o =
    Holds-bind IsOrderly IsOrderly (leave_room p g) _ (leave_room-IsOrderly p g o)
      (λ g₁ o₁. (o₁.0, IsDistinct-delete p.u g₁.players o₁.1))

resign_players-IsOrderly :
    (l : List Player) (g : Game) → IsOrderly g → Holds IsOrderly (resign_players l g)
unfolding resign_players
resign_players-IsOrderly [] g o = o
resign_players-IsOrderly (p ∷ l) g o =
    Holds-bind IsOrderly IsOrderly (resign_player p g) _ (resign_player-IsOrderly p g o)
      (λ g₁ o₁. resign_players-IsOrderly l g₁ o₁)

pub end_game-IsOrderly : (g : Game) → IsOrderly g → Holds IsOrderly₁ (end_game g)
unfolding end_game
end_game-IsOrderly g o =
    Holds-bind IsOrderly IsOrderly₁ (resign_players g.players g) _
      (resign_players-IsOrderly g.players g o) (λ g₁ o₁. (refl, o₁.1))

pub check_last-IsOrderly : (g : Game) → IsOrderly g → Holds IsOrderly₁ (check_last_person_alive g)
unfolding check_last_person_alive
check_last-IsOrderly g o = go g.players refl
  where
    go : (l : List Player) → g.players ≡ l → Holds IsOrderly₁ (check_last_person_alive g)
    go [] e =
        rw (e, check_last_person_alive)
          (Holds-bind IsOrderly₁ IsOrderly₁ (end_game g) _ (end_game-IsOrderly g o) (λ r o₁. o₁))
    go (p ∷ l) e =
        rw (e, check_last_person_alive)
          (Holds-if IsOrderly₁ (length l == 0) _ _
            (Holds-bind IsOrderly₁ IsOrderly₁ (end_game g) _ (end_game-IsOrderly g o) (λ r o₁. o₁))
            o)
