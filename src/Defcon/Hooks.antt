-- ===== src/Defcon/Hooks.antt =====
-- What a DEFCON level does to registrations and to new users.
use atheme_contrib_modules.Defcon.Timer.{is_kline}
use atheme_contrib_modules.Prelude.{
  ℕ, some, ◌+◌, if◌then◌else◌, ◌≡◌, none, not, [], ◌&&◌, arith, false,
}
use atheme_contrib_modules.Services.Keyed.{any}
use atheme_contrib_modules.Defcon.{
  defcon_nouserreg, defcon_useradd, defcon_nochanreg, Defcon, User, below,
}

-- Both registration hooks add one refusal below level 5, and none at level 5, to those of other
-- modules; and a call with no data changes nothing.
pub defcon_registration :
    (d : Defcon) (approved : ℕ)
    → let refusals = approved + (if below d.level 5 then 1 else 0) in
      ((defcon_nouserreg d (some approved)).0 ≡ some refusals)
      × ((defcon_nochanreg d (some approved)).0 ≡ some refusals)
      × (defcon_nouserreg d none ≡ (none, []))
      × (defcon_nochanreg d none ≡ (none, []))
unfolding defcon_nouserreg defcon_nochanreg
defcon_registration d approved = ground arith

-- A new user is k-lined exactly at level 1, if it is no internal client and no k-line was sent for
-- it; and a user that the hook has k-lined is not k-lined by it again, at whatever
-- level.
pub defcon_useradd_once :
    (d later : Defcon) (u : User)
    → let seen = defcon_useradd d (some u) in
      (any is_kline seen.1
        ≡ (not (below d.level 1) && below d.level 2 && not u.internal && not u.klinesent))
      × ((any is_kline seen.1 && any is_kline (defcon_useradd later seen.0).1) ≡ false)
unfolding defcon_useradd any
defcon_useradd_once d later u = ground arith
