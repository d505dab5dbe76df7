-- ===== src/Badwords/Channels.antt =====
-- A command finds its channel in mclist and writes to it through the pointer that it found.
use atheme_contrib_modules.Prelude.{
  List, ◌≡◌, ◌∷◌, true, some, if◌then◌else◌, arith, [], refl, Bool-cases, Option-cases, inl, inr,
  ap,
}
use atheme_contrib_modules.Services.Keyed.{find}
use atheme_contrib_modules.Services.Text.{Text}
use atheme_contrib_modules.Badwords.{replace, mychan_find, run_on, on_list, Mychan, Event, Badword}
use atheme_contrib_modules.Services.Registry.{Casemap}
use mathlib.Core.Option

module _ (c : Casemap) {M : Type 0} where
  pub replace_same :
      (channel : Text) (f : Mychan M → Mychan M) (mclist : List (Mychan M))
      → ((mc : Mychan M) → f mc ≡ mc)
      → replace c channel f mclist ≡ mclist
  unfolding replace
  replace_same channel f [] h = refl
  replace_same channel f (mc ∷ mclist) h = ground (arith, h mc, replace_same channel f mclist h)

  -- After a write to the channel that is found, a search for it finds what was written, and the
  -- other channels are as before.
  pub mychan_find-replace :
      (channel probe : Text) (f : Mychan M → Mychan M) (mclist : List (Mychan M))
      → ((mc : Mychan M) → (f mc).name ≡ mc.name)
      → mychan_find c probe (replace c channel f mclist) ≡ (
          if c.same channel probe
          then Option.map f (mychan_find c probe mclist)
          else mychan_find c probe mclist)
  unfolding mychan_find replace find
  mychan_find-replace channel probe f [] h = ground arith
  mychan_find-replace channel probe f (mc ∷ mclist) h = ground (
    arith,
    h mc,
    mychan_find-replace channel probe f mclist h,
    c.same_trans mc.name channel probe,
    c.same_trans mc.name probe channel,
    c.same_trans channel mc.name probe,
    c.same_sym channel probe,
    c.same_sym mc.name channel,
  )

  pub mychan_find_congr :
      (channel probe : Text) (mclist : List (Mychan M))
      → c.same channel probe ≡ true
      → mychan_find c probe mclist ≡ mychan_find c channel mclist
  unfolding mychan_find find
  mychan_find_congr channel probe [] h = refl
  mychan_find_congr channel probe (mc ∷ mclist) h = ground (
    arith,
    mychan_find_congr channel probe mclist h,
    c.same_trans mc.name channel probe,
    c.same_trans mc.name probe channel,
    c.same_sym channel probe,
  )

  pub run_on-replace :
      (channel : Text) (run : Mychan M → Mychan M × List Event) (mclist : List (Mychan M))
      (mc : Mychan M)
      → mychan_find c channel mclist ≡ some mc
      → (run_on c channel run mclist).0 ≡ replace c channel (λ m. (run m).0) mclist
  unfolding run_on
  run_on-replace channel run mclist mc e = rw (e, run_on)

  -- What a command does to the channel that it names, and to the others.
  pub run_on-find_any :
      (channel probe : Text) (run : Mychan M → Mychan M × List Event) (mclist : List (Mychan M))
      (mc : Mychan M)
      → ((m : Mychan M) → (run m).0.name ≡ m.name)
      → mychan_find c channel mclist ≡ some mc
      → mychan_find c probe (run_on c channel run mclist).0
        ≡ (if c.same channel probe then some (run mc).0 else mychan_find c probe mclist)
  run_on-find_any channel probe run mclist mc h e = rw (run_on-replace channel run mclist mc e) (
      rw (mychan_find-replace channel probe (λ m. (run m).0) mclist h)
        (elim (Bool-cases (c.same channel probe)) [
          | inl k ↦ rw k (rw (mychan_find_congr channel probe mclist k) (rw e))
          | inr k ↦ rw k
        ]))

  pub run_on-find :
      (channel probe : Text) (run : Text → List Badword → List Badword × List Event)
      (mclist : List (Mychan M)) (mc : Mychan M)
      → mychan_find c channel mclist ≡ some mc
      → mychan_find c probe (run_on c channel (on_list c run) mclist).0 ≡ (
          if c.same channel probe
          then some (record mc { badwords = (run mc.name mc.badwords).0 })
          else mychan_find c probe mclist)
  unfolding on_list
  run_on-find channel probe run mclist mc e =
      run_on-find_any channel probe (on_list c run) mclist mc (λ m. refl) e

  pub run_on_same :
      (channel : Text) (run : Text → List Badword → List Badword × List Event)
      (mclist : List (Mychan M))
      → ((chan : Text) (l : List Badword) → (run chan l).0 ≡ l)
      → (run_on c channel (on_list c run) mclist).0 ≡ mclist
  unfolding run_on on_list
  run_on_same channel run mclist h = elim (Option-cases (mychan_find c channel mclist)) [
    | inl e ↦ rw (e, run_on)
    | inr (mc, e) ↦
        rw (e, run_on)
          (replace_same channel (λ m. (on_list c run m).0) mclist
            (λ m. ap (λ (l : List Badword). record m { badwords = l }) (h m.name m.badwords)))
  ]
