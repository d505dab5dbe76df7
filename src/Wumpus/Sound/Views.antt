-- ===== src/Wumpus/Sound/Views.antt =====
-- What a player sees, and which rooms are near: only rooms of the maze are read.
use atheme_contrib_modules.Wumpus.Sound.Mazes.{room-IsRoom}
use atheme_contrib_modules.Wumpus.{
  Player, Game, equals, Room, exit_ids, wumpus_behind, distance_from, warnings, look_player,
  adjacent_room, distance_to_wumpus, room, holds, e_wumpus,
}
use atheme_contrib_modules.Prelude.Int.{ℤ, pos_part, pos, negsuc}
use atheme_contrib_modules.Services.Keyed.{any}
use atheme_contrib_modules.Wumpus.Sound.{
  within, IsMapped, Returns, IsRoom, Returns-bind, Returns-if,
}
use atheme_contrib_modules.Prelude.{
  Bool, ℕ, List, ◌≡◌, true, Option, some, ◌<◌, ◌∷◌, arith, [], refl,
}
use atheme_contrib_modules.Services.Database.{◌>>=◌}

-- Whatever comes back.
abbrev pub IsAny {ℓ} : {A : Type ℓ} → A → Type 0
IsAny a = Unit {0}

near_lt :
    (n : ℕ) (t : ℤ) (l : List ℕ) → within n l ≡ true → any (equals t) l ≡ true → pos_part t < n
unfolding within any
near_lt n t [] h k = cc
near_lt n (pos m) (e ∷ l) h k = ground (arith, near_lt n (pos m) l)
near_lt n (negsuc m) (e ∷ l) h k = ground (arith, near_lt n (negsuc m) l)

module _ (b : Bool) (n : ℕ) (ps l : List Player) (g : Game) (s : IsMapped b n ps l g) where
  -- A room is read, and something is done with it.
  pub read_room {ℓ} :
      {A : Type ℓ} (P : A → Type 0) (i : ℕ) (f : Room → Option A)
      → i < n
      → ((r : Room) → IsRoom n ps i r → Returns P (f r))
      → Returns P (room i g >>= f)
  read_room P i f h k = let (r, e, ok) = room-IsRoom b n i ps l g s h in rw e (k r ok)

  pub exit_ids_same : (es : List ℕ) → within n es ≡ true → exit_ids g es ≡ some es
  unfolding exit_ids within
  exit_ids_same [] h = refl
  exit_ids_same (e ∷ es) h =
      let (r, k, ok) = room-IsRoom b n e ps l g s (ground arith) in
      rw k (rw (exit_ids_same es (ground arith), ok.0) refl)

  wumpus_behind-Returns : (es : List ℕ) → within n es ≡ true → Returns IsAny (wumpus_behind g es)
  unfolding wumpus_behind within
  wumpus_behind-Returns [] h = tt
  wumpus_behind-Returns (e ∷ es) h = read_room IsAny e _ (ground arith) (λ r ok.
      Returns-if IsAny (holds e_wumpus r) _ _ (λ t. tt)
        (λ t. wumpus_behind-Returns es (ground arith)))

  distance_from-Returns : (es : List ℕ) → within n es ≡ true → Returns IsAny (distance_from g es)
  unfolding distance_from within
  distance_from-Returns [] h = tt
  distance_from-Returns (e ∷ es) h = read_room IsAny e _ (ground arith) (λ r ok.
      Returns-if IsAny (holds e_wumpus r) _ _ (λ t. tt)
        (λ t.
          Returns-bind IsAny IsAny (wumpus_behind g r.exits) _ (wumpus_behind-Returns r.exits ok.2)
            (λ behind _.
              Returns-if IsAny behind _ _ (λ t'. tt)
                (λ t'. distance_from-Returns es (ground arith)))))

  warnings-Returns : (u : ℕ) (es : List ℕ) → within n es ≡ true → Returns IsAny (warnings u g es)
  unfolding warnings within
  warnings-Returns u [] h = tt
  warnings-Returns u (e ∷ es) h = read_room IsAny e _ (ground arith) (λ r ok.
      Returns-bind IsAny IsAny (warnings u g es) _ (warnings-Returns u es (ground arith))
        (λ rest _. tt))

  distance_to_wumpus-Returns :
      (p : Player) (i : ℕ) → p.location ≡ some i → i < n → Returns IsAny (distance_to_wumpus p g)
  unfolding distance_to_wumpus
  distance_to_wumpus-Returns p i e h =
      rw (e, distance_to_wumpus)
        (read_room IsAny i _ h (λ r ok. distance_from-Returns r.exits ok.2))

  pub look_player-Returns :
      (p : Player) (i : ℕ) → p.location ≡ some i → i < n → Returns IsAny (look_player p g)
  unfolding look_player
  look_player-Returns p i e h =
      rw (e, look_player)
        (read_room IsAny i _ h (λ r ok. rw (exit_ids_same r.exits ok.2) (
          Returns-bind IsAny IsAny (distance_to_wumpus p g) _ (distance_to_wumpus-Returns p i e h)
            (λ distance _.
              Returns-bind IsAny IsAny (warnings p.u g r.exits) _
                (warnings-Returns p.u r.exits ok.2) (λ warned _. tt)))))

  -- Only rooms of the maze are near.
  pub adjacent_room-Returns :
      (p : Player) (i : ℕ) (t : ℤ)
      → p.location ≡ some i
      → i < n
      → Returns (λ near. near ≡ true → pos_part t < n) (adjacent_room p t g)
  unfolding adjacent_room
  adjacent_room-Returns p i t e h =
      rw (e, adjacent_room)
        (read_room (λ near. near ≡ true → pos_part t < n) i _ h
          (λ r ok. rw (exit_ids_same r.exits ok.2) (near_lt n t r.exits ok.2)))
