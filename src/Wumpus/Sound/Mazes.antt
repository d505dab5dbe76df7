-- ===== src/Wumpus/Sound/Mazes.antt =====
-- The rooms of a sound game: read, written, left and entered.
use mathlib.Core.Path.{subst}
use atheme_contrib_modules.Services.Keyed.{delete}
use atheme_contrib_modules.Wumpus.{room, alter_room, Player, Room, Game, Contents, filled, without}
use atheme_contrib_modules.Wumpus.Sound.{
  within, times, IsMaze, IsMapped, IsRoom, Returns, stands, standing,
}
use atheme_contrib_modules.Prelude.{
  ℕ, List, get_elem?, Bool, ◌<◌, ◌≡◌, ◌++◌, length, some, true, ◌==◌, ◌∷◌, suc, arith, [], ◌+◌,
  if◌then◌else◌, refl, false, set, length-set, ◌∙◌, Bool-cases, inl, inr, ==_iff, sym,
  get_elem?-set_self, ap, ◌≢◌, get_elem?-set_ne,
}
use mathlib.Core.Option.{some_inj}
use Prim.Native.Nat.{zero}

pub get_elem?-some {ℓ} :
    {A : Type ℓ} (xs : List A) (i : ℕ) → i < length xs → (x : A) × (get_elem? xs i ≡ some x)
get_elem?-some [] i h = elim h [ ]
get_elem?-some (x ∷ xs) zero h = (x, refl)
get_elem?-some (x ∷ xs) (suc i) h = get_elem?-some xs i (omega (arith, h))

pub get_elem?-lt {ℓ} :
    {A : Type ℓ} (xs : List A) (i : ℕ) (x : A) → get_elem? xs i ≡ some x → i < length xs
get_elem?-lt [] i x h = cc
get_elem?-lt (y ∷ xs) zero x h = omega arith
get_elem?-lt (y ∷ xs) (suc i) x h = omega (arith, get_elem?-lt xs i x h)

pub within-lt : (n : ℕ) (l : List ℕ) (i e : ℕ) → within n l ≡ true → get_elem? l i ≡ some e → e < n
unfolding within
within-lt n [] i e h k = cc
within-lt n (x ∷ l) zero e h k = ground arith
within-lt n (x ∷ l) (suc i) e h k = within-lt n l i e (ground arith) k

pub times-delete :
    (v u : ℕ) (l : List ℕ)
    → 0 < times u l
    → times v (delete (λ x. x == u) l) + (if u == v then 1 else 0) ≡ times v l
unfolding times delete
times-delete v u [] h = elim h [ ]
times-delete v u (x ∷ l) h = ground (arith, times-delete v u l)

pub times-append :
    (v u : ℕ) (l : List ℕ) → times v (l ++ u ∷ []) ≡ times v l + (if u == v then 1 else 0)
unfolding times
times-append v u [] = ground arith
times-append v u (x ∷ l) = omega (arith, times-append v u l)

-- What holds of every room and its index, after a room was written.
pub rooms-set :
    (P Q : ℕ → Room → Type 0) (rooms : List Room) (i : ℕ) (r : Room)
    → ((j : ℕ) (x : Room) → get_elem? rooms j ≡ some x → P j x)
    → i < length rooms
    → Q i r
    → ((j : ℕ) (x : Room) → (i == j) ≡ false → P j x → Q j x)
    → (j : ℕ) (x : Room) → get_elem? (set rooms i r) j ≡ some x
    → Q j x
rooms-set P Q rooms i r all h now others j x e = elim (Bool-cases (i == j)) [
  | inl same ↦
      let i_eq : i ≡ j = (==_iff i j).0 same in
      let r_eq : some r ≡ some x =
        sym (get_elem?-set_self rooms i r h) ∙ ap (get_elem? (set rooms i r)) i_eq ∙ e in
      subst (λ k. Q k x) i_eq (subst (λ y. Q i y) (some_inj.0 r_eq) now)
  | inr apart ↦
      let i_ne : i ≢ j = λ q. ground (arith, q, apart) in
      others j x apart (all j x (sym (get_elem?-set_ne rooms r i_ne) ∙ e))
]

-- Reading a room of the maze.
pub room-IsRoom :
    (b : Bool) (n i : ℕ) (ps l : List Player) (g : Game)
    → IsMapped b n ps l g
    → i < n
    → (r : Room) × (room i g ≡ some r) × IsRoom n ps i r
unfolding room
room-IsRoom b n i ps l g (_, _, _, _, (rooms, e, (len, all)), _) h =
    let (r, f) = get_elem?-some rooms i (rw len h) in (r, rw (e, room) f, all i r f)

-- Writing a room: it is right for the players `qs` afterwards, if it and the others are.
pub alter_room-IsMapped :
    (b : Bool) (n i : ℕ) (ps qs l : List Player) (f : Room → Room) (g : Game)
    → IsMapped b n ps l g
    → i < n
    → ((r : Room) → IsRoom n ps i r → IsRoom n qs i (f r))
    → ((j : ℕ) (x : Room) → (i == j) ≡ false → IsRoom n ps j x → IsRoom n qs j x)
    → Returns (IsMapped b n qs l) (alter_room i f g)
unfolding alter_room room
alter_room-IsMapped b n i ps qs l f g (run, start, size, players, (rooms, e, maze), w) h now
      others =
    let (r, k) = get_elem?-some rooms i (rw maze.0 h) in
    let after : IsMaze n qs (set rooms i (f r)) = (
      length-set rooms i (f r) ∙ maze.0,
      rooms-set (IsRoom n ps) (IsRoom n qs) rooms i (f r) maze.1 (rw maze.0 h)
          (now r (maze.1 i r k)) others,
    ) in
    rw (e, alter_room) (rw k (run, start, size, players, (set rooms i (f r), refl, after), w))

-- Writing what a room holds.
pub alter_room-filled :
    (b : Bool) (n i : ℕ) (ps l : List Player) (e : Contents) (g : Game)
    → IsMapped b n ps l g
    → i < n
    → Returns (IsMapped b n ps l) (alter_room i (filled e) g)
alter_room-filled b n i ps l e g s h =
    alter_room-IsMapped b n i ps ps l (filled e) g s h (λ r k. k) (λ j x apart k. k)

-- A player stands in no other room than that of his location.
stands-other : (v i j : ℕ) (p : Player) → p.location ≡ some i → (i == j) ≡ false → stands v j p ≡ 0
stands-other v i j p e h = rw e (ground (arith, h))

-- A player leaves a room: its list is right for players `qs` without him.
pub leave-IsMapped :
    (b : Bool) (n i : ℕ) (ps qs l : List Player) (p : Player) (g : Game)
    → IsMapped b n ps l g
    → i < n
    → p.location ≡ some i
    → ((v j : ℕ) → standing v j qs + stands v j p ≡ standing v j ps)
    → Returns (IsMapped b n qs l) (alter_room i (without p.u) g)
unfolding delete
leave-IsMapped b n i ps qs l p g s h e c =
    alter_room-IsMapped b n i ps qs l (without p.u) g s h
      (λ r k. (
        k.0,
        k.1,
        k.2,
        λ v.
            let there : stands p.u i p ≡ 1 = rw e (ground (arith, ==_iff p.u p.u, ==_iff i i)) in
            let in_it : 0 < times p.u r.players = omega (arith, k.3 p.u, c p.u i, there) in
            let stands_v : stands v i p ≡ (if p.u == v then 1 else 0) =
              rw e (ground (arith, ==_iff i i)) in
            omega (arith, times-delete v p.u r.players in_it, k.3 v, c v i, stands_v),
      ))
      (λ j x apart k.
        (k.0, k.1, k.2, λ v. omega (arith, k.3 v, c v j, stands-other v i j p e apart)))

-- A player enters a room.
pub enter-IsMapped :
    (b : Bool) (n i : ℕ) (ps qs l : List Player) (p : Player) (g : Game)
    → IsMapped b n ps l g
    → i < n
    → p.location ≡ some i
    → ((v j : ℕ) → standing v j qs ≡ standing v j ps + stands v j p)
    → Returns
        (IsMapped b n qs l)
        (alter_room i (λ r. record r { players = r.players ++ p.u ∷ [] }) g)
enter-IsMapped b n i ps qs l p g s h e c =
    alter_room-IsMapped b n i ps qs l (λ r. record r { players = r.players ++ p.u ∷ [] }) g s h
      (λ r k. (
        k.0,
        k.1,
        k.2,
        λ v.
            let stands_v : stands v i p ≡ (if p.u == v then 1 else 0) =
              rw e (ground (arith, ==_iff i i)) in
            omega (arith, times-append v p.u r.players, k.3 v, c v i, stands_v),
      ))
      (λ j x apart k.
        (k.0, k.1, k.2, λ v. omega (arith, k.3 v, c v j, stands-other v i j p e apart)))
