-- ===== src/Wumpus/Sound/Restarts.antt =====
-- A game that runs can be ended, and another begun.
use atheme_contrib_modules.Wumpus.Sound.Kept.{commands_return}
use atheme_contrib_modules.Services.Text.{Text}
use atheme_contrib_modules.Wumpus.{
  Game, create_player, find_player, Event, is_player, end_game, new_player,
}
use atheme_contrib_modules.Wumpus.Service.{cmd_reset, cmd_start, cmd_join, start_by, join_by}
use atheme_contrib_modules.Prelude.{
  ℕ, Option, List, ◌≡◌, true, false, some, arith, Option-cases, inl, inr, ◌∷◌, [], ==_iff, refl,
}
use mathlib.Core.Option.{none}
use atheme_contrib_modules.Wumpus.Service.Reach.{Reach, Step, initial}
use atheme_contrib_modules.Services.Keyed.{any, find, any-append, any_of_find}

reset_stops :
    (u : ℕ) (g h : Game) (events : List Event)
    → cmd_reset (some u) g ≡ some (h, events)
    → g.running ≡ true
    → (h.running ≡ false) × (h.starting ≡ false)
unfolding cmd_reset
reset_stops u g h events e run = elim (Option-cases (end_game g)) [
  | inl f ↦ ground (arith, run, e, f)
  | inr (r, f) ↦ ground (arith, run, e, f)
]

start_accepted :
    (u : ℕ) (size : Option Text) (g : Game)
    → g.running ≡ false
    → g.starting ≡ false
    → let g₁ = (start_by u size g).0 in (g₁.starting ≡ true) × (g₁.running ≡ false)
unfolding start_by
start_accepted u size g r s = ground (arith, r, s)

join_accepted :
    (u : ℕ) (g : Game)
    → g.starting ≡ true
    → g.running ≡ false
    → let k = (join_by u g).0 in
      (k.starting ≡ true) × (k.running ≡ false) × (any (is_player u) k.players ≡ true)
unfolding join_by create_player find_player any
join_accepted u g s r = elim (Option-cases (find (is_player u) g.players)) [
  | inl e ↦
      ground (arith, s, r, e, any-append (is_player u) g.players (new_player u ∷ []), ==_iff u u)
  | inr (p, e) ↦ ground (arith, s, r, e, any_of_find (is_player u) g.players p e)
]

module _ (rand : ℕ → ℕ) where
  -- From every state that the game can reach in which it runs, it can reach one in which it does not run,
  -- the next is gathering its players, and any given user is one of them: by RESET, which ends, START and
  -- JOIN.
  pub reset-start-join :
      {g : Game}
      → Reach rand initial g
      → (u v : ℕ) (size : Option Text) → g.running ≡ true
      → (h l k : Game) × (a b c : List Event) × (cmd_reset (some u) g ≡ some (h, a))
        × (h.running ≡ false)
        × (cmd_start (some u) size h ≡ some (l, b))
        × (cmd_join (some v) l ≡ some (k, c))
        × Reach rand initial k
        × (k.starting ≡ true)
        × (k.running ≡ false)
        × (any (is_player v) k.players ≡ true)
  unfolding cmd_start cmd_join
  reset-start-join {g = g} reach u v size run = elim (Option-cases (cmd_reset (some u) g)) [
    | inl e ↦
        (let ends = (commands_return rand reach (some u) u none none).7 in
          let stuck : false ≡ true = rw e at ends in cc)
    | inr ((h, a), e) ↦
        let (stopped, idle) = reset_stops u g h a e run in
        let (gathers, waits) = start_accepted u size h stopped idle in
        let (l, b) = start_by u size h in
        let (k, c) = join_by v l in
        let (still, not_yet, in_game) = join_accepted v l gathers waits in
        let reached =
          Reach.next
            (Reach.next (Reach.next reach (Step.resets (some u) a e))
              (Step.starts (some u) size b refl))
            (Step.joins_in (some v) c refl) in
        (h, l, k, a, b, c, e, stopped, refl, refl, reached, still, not_yet, in_game)
  ]
