-- ===== src/Wumpus/Sound/Walks.antt =====
-- The wumpus walks, and eats.
use native.Mathlib.Nat.{mod-lt}
use atheme_contrib_modules.Services.Keyed.{delete}
use atheme_contrib_modules.Wumpus.Sound.Views.{read_room}
use atheme_contrib_modules.Wumpus.Sound.Resigned.{
  found_at, resign_player-IsSound, IsState₁, check_last-IsState,
}
use atheme_contrib_modules.Wumpus.Sound.Players.{
  AreFound, standing-kept, ArePlaced-delete, AreFound-delete, ArePlaced-set_player, find-false,
  AreFound-set_player, AreFound-self,
}
use atheme_contrib_modules.Wumpus.Sound.Mazes.{alter_room-filled, get_elem?-some, within-lt}
use atheme_contrib_modules.Wumpus.Sound.{
  IsSound, IsMapped, IsFound, Returns, ArePlaced, IsDistinct, Returns-if, Returns-bind, is_lost,
  Returns-read,
}
use atheme_contrib_modules.Wumpus.{
  Game, regen_obj, eat, Player, Event, Contents, set_player, drawn, is_player, resign_player,
  move_wumpus, room, alter_room, filled, emptied, e_wumpus, e_nothing, check_last_person_alive, msg,
  footsteps, screams_of,
}
use atheme_contrib_modules.Prelude.{
  ℕ, Bool, List, ◌<◌, ◌%◌, true, sym, arith, ◌≡◌, ap, ◌∷◌, ◌∙◌, false, ◌==◌, [], refl, some, length,
  ◌++◌, if◌then◌else◌, get_elem?,
}
use mathlib.Core.Path.{subst}
use atheme_contrib_modules.Services.Database.{◌>>=◌}

-- A player changes, but not his room.
pub kept-IsSound :
    (b : Bool) (n : ℕ) (ps : List Player) (p q : Player) (g : Game)
    → IsSound b n ps g
    → IsFound p ps
    → q.u ≡ p.u
    → q.location ≡ p.location
    → IsSound b n (set_player q ps) (record g { players = set_player q g.players })
kept-IsSound b n ps p q g (run, start, size, players, (rooms, e, (len, all)), w) f u place = (
  run,
  start,
  size,
  ap (set_player q) players,
  (
    rooms,
    e,
    (
      len,
      λ j r k.
          let ok = all j r k in
          (ok.0, ok.1, ok.2, λ v. ok.3 v ∙ sym (standing-kept v j p q ps f u place)),
    ),
  ),
  w,
)

-- A game that runs, with players in their rooms.
abbrev pub IsRunning : ℕ → Game → Type 0
IsRunning n g = (ps : List Player) × IsSound true n ps g × ArePlaced n ps

abbrev IsEaten : ℕ → Game × ℕ × List Event → Type 0
IsEaten n (g, _, _) = IsRunning n g

pub mod_below : (n m : ℕ) → 0 < n → m % n < n
mod_below n m h = mod-lt m h

module _ (rand : ℕ → ℕ) where
  -- A number that is drawn is that of a room.
  pub drawn_below :
      (b : Bool) (n m : ℕ) (ps l : List Player) (g : Game)
      → IsMapped b n ps l g
      → m % g.mazesize < n
  drawn_below b n m ps l g (_, _, size, _, _, (w, e, h)) =
      subst (λ k. m % k < n) (sym size) (mod_below n m (omega (arith, h)))

  pub regen_obj-IsMapped :
      (b : Bool) (n : ℕ) (ps l : List Player) (e : Contents) (g : Game)
      → IsMapped b n ps l g
      → Returns (IsMapped b n ps l) (regen_obj rand e g)
  unfolding regen_obj
  regen_obj-IsMapped b n ps l e g s =
      alter_room-filled b n (rand g.draws % g.mazesize) ps l e (drawn g) s
        (drawn_below b n (rand g.draws) ps l g s)

  eat-IsRunning :
      (n : ℕ) (ps l : List Player) (g : Game)
      → IsSound true n ps g
      → ArePlaced n ps
      → AreFound l ps
      → IsDistinct l
      → Returns (IsEaten n) (eat rand l g)
  unfolding eat
  eat-IsRunning n ps [] g s a f d = (ps, s, a)
  eat-IsRunning n ps (p ∷ l) g s a f d =
      let (i, e, h) = found_at n p ps a.0 f.0 in
      let (w, k, _) = s.5 in
      let p' : Player = record p { has_moved = false } in
      Returns-read (IsEaten n) p.location i _ e (
        read_room true n ps ps g s (IsEaten n) i _ h (λ r ok.
          Returns-read (IsEaten n) g.wumpus w _ k (
            Returns-if (IsEaten n) (w == r.id) _ _
              (λ t.
                Returns-bind (IsSound true n (delete (is_player p.u) ps)) (IsEaten n)
                  (resign_player p g) _ (resign_player-IsSound true n ps p g s a.0 f.0)
                  (λ g₁ s₁.
                    Returns-bind (IsEaten n) (IsEaten n) (eat rand l g₁) _
                      (eat-IsRunning n (delete (is_player p.u) ps) l g₁ s₁
                        (ArePlaced-delete n p.u ps a) (AreFound-delete p.u l ps d.0 f.1) d.1)
                      (λ r₂ o. o)))
              (λ t.
                eat-IsRunning n (set_player p' ps) l
                  (record g { players = set_player p' g.players })
                  (kept-IsSound true n ps p p' g s f.0 refl refl)
                  (ArePlaced-set_player n p' ps a (find-false (is_lost n) p.u p ps a.0 f.0))
                  (AreFound-set_player p' l ps d.0 f.1) d.1))))

  -- The wumpus comes to a room next to its own.
  arrives-IsState :
      (n : ℕ) (ps : List Player) (g : Game) (next : ℕ)
      → IsSound true n ps g
      → ArePlaced n ps
      → next < n
      → Returns IsState₁ (do
        tr ← room next g
        g₃ ← alter_room next (filled e_wumpus) (drawn g)
        (g₄, kills, events) ← eat rand g₃.players (record g₃ { wumpus = some tr.id })
        (g₅, last) ← check_last_person_alive g₄
        some (
          g₅,
          msg footsteps ∷ events
              ++ (if kills == 0 then [] else msg (screams_of kills) ∷ [])
              ++ last,
        ))
  arrives-IsState n ps g next s a h = read_room true n ps ps g s IsState₁ next _ h (λ tr ok.
      Returns-bind (IsSound true n ps) IsState₁ (alter_room next (filled e_wumpus) (drawn g)) _
        (alter_room-filled true n next ps ps e_wumpus (drawn g) s h)
        (λ g₃ (run, start, size, players, maze, w).
          let g' : Game = record g₃ { wumpus = some tr.id } in
          Returns-bind (IsEaten n) IsState₁ (eat rand g₃.players g') _
            (subst (λ l. Returns (IsEaten n) (eat rand l g')) (sym players)
              (eat-IsRunning n ps ps g'
                (run, start, size, players, maze, (tr.id, refl, subst (λ i. i < n) (sym ok.0) h)) a
                (AreFound-self ps a.1) a.1))
            (λ r₄ (qs, s₄, a₄).
              Returns-bind IsState₁ IsState₁ (check_last_person_alive r₄.0) _
                (check_last-IsState n qs r₄.0 s₄ a₄) (λ r₅ o. o))))

  pub move_wumpus-IsState :
      (n : ℕ) (ps : List Player) (g : Game)
      → IsSound true n ps g
      → ArePlaced n ps
      → Returns IsState₁ (move_wumpus rand g)
  unfolding move_wumpus
  move_wumpus-IsState n ps g s a =
      let (rooms, e, maze) = s.4 in
      let (w, k, h) = s.5 in
      rw (e, move_wumpus)
        (Returns-read IsState₁ g.wumpus w _ k (
          read_room true n ps ps g s IsState₁ w _ h (λ r ok.
            Returns-bind (IsSound true n ps) IsState₁ (regen_obj rand r.contents g) _
              (regen_obj-IsMapped true n ps ps r.contents g s)
              (λ g₁ s₁.
                Returns-bind (IsSound true n ps) IsState₁ (alter_room w emptied g₁) _
                  (alter_room-filled true n w ps ps e_nothing g₁ s₁ h)
                  (λ g₂ s₂.
                    let i = rand g₂.draws % length r.exits in
                    let (next, found) =
                      get_elem?-some r.exits i (mod_below (length r.exits) (rand g₂.draws) ok.1) in
                    Returns-read IsState₁ (get_elem? r.exits i) next _ found (
                      arrives-IsState n ps g₂ next s₂ a
                        (within-lt n r.exits i next ok.2 found)))))))
