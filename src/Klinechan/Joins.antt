-- ===== src/Klinechan/Joins.antt =====
-- Who is k-lined on joining, and which channels are listed.
use atheme_contrib_modules.Services.Keyed.{any, keep}
use atheme_contrib_modules.Services.Text.{Text}
use atheme_contrib_modules.Services.Metadata.{Metadata, is_some}
use atheme_contrib_modules.Klinechan.{
  Event, kline_add, klinechan_check_join, listing, Mychan, User, closer,
}
use atheme_contrib_modules.Prelude.{
  ℕ, List, Bool, true, false, ◌≡◌, some, ◌&&◌, not, ◌∷◌, arith, [], refl,
}

abbrev pub is_kline : Event → Bool
is_kline (kline_add host reason) = true
is_kline _ = false

module _ {M : Type 0} (md : Metadata M) (int64_to_string : ℕ → Text) where
  -- A user who joins a registered channel is k-lined exactly if the channel is on autokline, OperServ
  -- is there, and the user is no client of services, was sent no k-line, and is neither staff nor
  -- exempt; a user whom the hook has k-lined is not k-lined by it again.
  pub klinechan_join_once :
      (svs : Bool) (chan : Text) (mc : Mychan M) (u v : User) (events : List Event)
      → klinechan_check_join md int64_to_string svs chan (some mc) (some u) ≡ (some v, events)
      → (any is_kline events ≡ (
          is_some (md.metadata_find closer mc.meta)
          && svs
          && not u.internal
          && not u.klinesent
          && not u.staff
          && not u.exempt))
        × ((any is_kline events
              && any is_kline
                  (klinechan_check_join md int64_to_string svs chan (some mc) (some v)).1)
            ≡ false)
  unfolding klinechan_check_join any
  klinechan_join_once svs chan mc u v events h = ground arith

  listing-keep :
      (match : Text → Text → Bool) (pattern : Text) (mclist : List (Mychan M))
      → listing md int64_to_string match pattern mclist
        ≡ keep (λ mc. is_some (md.metadata_find closer mc.meta) && match pattern mc.name) mclist
  unfolding listing keep
  listing-keep match pattern [] = refl
  listing-keep match pattern (mc ∷ mclist) = ground (arith, listing-keep match pattern mclist)
