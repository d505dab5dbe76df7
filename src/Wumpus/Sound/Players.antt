-- ===== src/Wumpus/Sound/Players.antt =====
-- The players of a game: counted, found, changed and taken out.
use atheme_contrib_modules.Wumpus.Order.{IsDistinct-set_player, any-delete-false, IsDistinct-delete}
use atheme_contrib_modules.Wumpus.{set_player, Player, is_player}
use atheme_contrib_modules.Wumpus.Sound.{standing, IsFound, IsDistinct, ArePlaced, is_lost, stands}
use atheme_contrib_modules.Services.Keyed.{find, delete, any, find-holds}
use atheme_contrib_modules.Prelude.{
  ℕ, List, Bool, ◌∷◌, ◌==◌, ◌<◌, [], arith, ◌≡◌, ◌+◌, some, ==_iff, false, true, refl, ap, ◌∙◌,
}

pub standing-set_player :
    (v j : ℕ) (p q : Player) (ps : List Player)
    → IsFound p ps
    → q.u ≡ p.u
    → standing v j (set_player q ps) + stands v j p ≡ standing v j ps + stands v j q
unfolding standing set_player find
standing-set_player v j p q [] h e = cc
standing-set_player v j p q (x ∷ ps) h e = ground (arith, standing-set_player v j p q ps)

pub standing-delete :
    (v j : ℕ) (p : Player) (ps : List Player)
    → IsFound p ps
    → standing v j (delete (is_player p.u) ps) + stands v j p ≡ standing v j ps
unfolding standing delete find
standing-delete v j p [] h = cc
standing-delete v j p (x ∷ ps) h = ground (arith, standing-delete v j p ps)

-- A change that leaves a player in his room.
pub standing-kept :
    (v j : ℕ) (p q : Player) (ps : List Player)
    → IsFound p ps
    → q.u ≡ p.u
    → q.location ≡ p.location
    → standing v j (set_player q ps) ≡ standing v j ps
standing-kept v j p q ps h e f =
    let same : stands v j q ≡ stands v j p = rw (e, f) refl in
    omega (arith, standing-set_player v j p q ps h e, same)

pub IsFound-self :
    (v : ℕ) (p : Player) (ps : List Player)
    → find (is_player v) ps ≡ some p
    → (p.u ≡ v) × IsFound p ps
IsFound-self v p ps h =
    let e : p.u ≡ v = (==_iff p.u v).0 (find-holds (is_player v) ps p h) in
    (e, ap (λ k. find (is_player k) ps) e ∙ h)

pub IsFound-set_player :
    (p q : Player) (ps : List Player) → IsFound p ps → q.u ≡ p.u → IsFound q (set_player q ps)
unfolding set_player find
IsFound-set_player p q [] h e = cc
IsFound-set_player p q (x ∷ ps) h e = ground (arith, IsFound-set_player p q ps, ==_iff q.u q.u)

pub IsFound-set_other :
    (p q : Player) (ps : List Player)
    → (q.u == p.u) ≡ false
    → IsFound p ps
    → IsFound p (set_player q ps)
unfolding set_player find
IsFound-set_other p q [] d h = cc
IsFound-set_other p q (x ∷ ps) d h = ground (arith, IsFound-set_other p q ps)

pub IsFound-delete_other :
    (p : Player) (u : ℕ) (ps : List Player)
    → (u == p.u) ≡ false
    → IsFound p ps
    → IsFound p (delete (is_player u) ps)
unfolding delete find
IsFound-delete_other p u [] d h = cc
IsFound-delete_other p u (x ∷ ps) d h = ground (arith, IsFound-delete_other p u ps)

-- Who stands somewhere is found.
pub standing-any : (v j : ℕ) (ps : List Player) → 0 < standing v j ps → any (is_player v) ps ≡ true
unfolding standing any
standing-any v j [] h = elim h [ ]
standing-any v j (p ∷ ps) h = ground (arith, standing-any v j ps)

-- A test that no player passes is one that no player found passes.
pub find-false :
    (q : Player → Bool) (v : ℕ) (p : Player) (ps : List Player)
    → any q ps ≡ false
    → find (is_player v) ps ≡ some p
    → q p ≡ false
unfolding any find
find-false q v p [] h f = cc
find-false q v p (x ∷ ps) h f = ground (arith, find-false q v p ps)

pub any-set_player :
    (q : Player → Bool) (p : Player) (ps : List Player)
    → any q ps ≡ false
    → q p ≡ false
    → any q (set_player p ps) ≡ false
unfolding any set_player
any-set_player q p [] h k = refl
any-set_player q p (x ∷ ps) h k = ground (arith, any-set_player q p ps)

-- All of the first list are found in the second.
abbrev pub AreFound : List Player → List Player → Type 0
AreFound [] ps = Unit {0}
AreFound (p ∷ l) ps = IsFound p ps × AreFound l ps

AreFound-cons :
    (p : Player) (l ps : List Player)
    → any (is_player p.u) l ≡ false
    → AreFound l ps
    → AreFound l (p ∷ ps)
unfolding find any
AreFound-cons p [] ps h f = tt
AreFound-cons p (q ∷ l) ps h f =
    (ground (arith, f, h, ==_iff p.u q.u, ==_iff q.u p.u), AreFound-cons p l ps (ground arith) f.1)

pub AreFound-self : (ps : List Player) → IsDistinct ps → AreFound ps ps
unfolding find
AreFound-self [] d = tt
AreFound-self (p ∷ ps) d =
    (ground (arith, ==_iff p.u p.u), AreFound-cons p ps ps d.0 (AreFound-self ps d.1))

pub AreFound-delete :
    (u : ℕ) (l ps : List Player)
    → any (is_player u) l ≡ false
    → AreFound l ps
    → AreFound l (delete (is_player u) ps)
unfolding any
AreFound-delete u [] ps h f = tt
AreFound-delete u (q ∷ l) ps h f = (
  IsFound-delete_other q u ps (ground (arith, ==_iff q.u u, ==_iff u q.u)) f.0,
  AreFound-delete u l ps (ground arith) f.1,
)

pub AreFound-set_player :
    (q : Player) (l ps : List Player)
    → any (is_player q.u) l ≡ false
    → AreFound l ps
    → AreFound l (set_player q ps)
unfolding any
AreFound-set_player q [] ps h f = tt
AreFound-set_player q (p ∷ l) ps h f = (
  IsFound-set_other p q ps (ground (arith, ==_iff q.u p.u, ==_iff p.u q.u)) f.0,
  AreFound-set_player q l ps (ground arith) f.1,
)

pub ArePlaced-delete :
    (n u : ℕ) (ps : List Player) → ArePlaced n ps → ArePlaced n (delete (is_player u) ps)
ArePlaced-delete n u ps (h, d) = (any-delete-false (is_lost n) u ps h, IsDistinct-delete u ps d)

pub ArePlaced-set_player :
    (n : ℕ) (p : Player) (ps : List Player)
    → ArePlaced n ps
    → is_lost n p ≡ false
    → ArePlaced n (set_player p ps)
ArePlaced-set_player n p ps (h, d) k =
    (any-set_player (is_lost n) p ps h k, IsDistinct-set_player p ps d)
