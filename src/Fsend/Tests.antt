-- ===== src/Fsend/Tests.antt =====
-- The theorem about FSEND at a concrete input.
use atheme_contrib_modules.Services.Text.{strcmp_eq, codes, strlcat}
use atheme_contrib_modules.Fsend.Inboxes.{IsBounded, ms_cmd_fsend-IsBounded}
use atheme_contrib_modules.Fsend.{Limits, Source, ms_cmd_fsend, Myuser, memo_of}
use atheme_contrib_modules.Prelude.{ℕ, some, false, true, ◌≡◌, [], arith, ◌∷◌, refl}

abbrev small : Limits
small = record {
  max_time = 60;
  max_num = 4;
  memolen = 300;
  mdlimit = 2;
  sender_size = 32;
  text_size = 301;
}

abbrev joe : Source
joe = record { smu = some 0; su = some (codes "joe_"); flood = false }

abbrev fresh : ℕ → Myuser
fresh i = record {
  name = codes "joe";
  email = codes "j@x";
  emailmemos = true;
  memos = [];
  memoct_new = 0;
  memo_ratelimit_num = 4;
  memo_ratelimit_time = 90;
}

-- The sender is the target.
ms_cmd_fsend-IsBounded_example :
    IsBounded small strcmp_eq
      (λ t. some 0)
      (λ t. some 0)
      ((ms_cmd_fsend small strcmp_eq
          (λ t. some 0)
          (λ t. some 0)
          joe
          100
          (some (codes "joe"))
          (some (codes "hello"))
          fresh).0
        0)
ms_cmd_fsend-IsBounded_example =
    ms_cmd_fsend-IsBounded small strcmp_eq (λ t. some 0) (λ t. some 0) joe 100 (some (codes "joe"))
      (some (codes "hello")) fresh refl (λ i. (omega arith, omega arith)) 0

delivered :
    ((ms_cmd_fsend small strcmp_eq
        (λ t. some 0)
        (λ t. some 0)
        joe
        100
        (some (codes "joe"))
        (some (codes "hello"))
        fresh).0
      0).memos
    ≡ record { sent = 100; status = 0; sender = codes "joe"; text = codes "[FORCE] hello" } ∷ []
unfolding ms_cmd_fsend memo_of strlcat strcmp_eq
delivered = refl
