-- ===== src/AkillNickList/Hits.antt =====
-- Which users aknl_nickhook() k-lines, told from the files of the configuration.
use atheme_contrib_modules.Services.Keyed.{any}
use atheme_contrib_modules.Services.Text.{Text}
use atheme_contrib_modules.Services.Registry.{Casemap}
use atheme_contrib_modules.AkillNickList.{
  Setting, Event, Patricia, kline_add, nicklist_config_handler, Nicklists, add_lines,
  add_contents_of_file_to_list, all, nick, user, real, add_value, created, User, appears,
  aknl_nickhook, known,
}
use atheme_contrib_modules.Prelude.{
  List, Option, Bool, true, false, some, ◌&&◌, ◌≡◌, ◌||◌, arith, ◌∷◌, [], not,
}
use mathlib.Core.Option.{none}

-- A setting with its file.
abbrev pub Config : Type 0
Config = List (Setting × Option (List Text))

abbrev is_setting : Setting → Setting → Bool
is_setting all all = true
is_setting nick nick = true
is_setting user user = true
is_setting real real = true
is_setting _ _ = false

abbrev pub is_kline : Event → Bool
is_kline (kline_add u h r t s) = true
is_kline _ = false

module _ {T : Type 0} {c : Casemap} (p : Patricia T c) (strip : Text → Text) where
  -- The handlers, called for one setting after the other.
  pub read_config : Config → Nicklists T → Nicklists T
  unfolding nicklist_config_handler
  read_config [] s = s
  read_config ((k, f) ∷ l) s = read_config l (nicklist_config_handler p strip k f s)

  abbrev list_of : Setting → Nicklists T → T
  list_of all s = s.akillalllist
  list_of nick s = s.akillnicklist
  list_of user s = s.akilluserlist
  list_of real s = s.akillreallist

  -- A line that names something, a file with such a line, and a setting with such a file.
  abbrev value_names : Text → Text → Bool
  value_names j [] = false
  value_names j (b ∷ value) = c.same (b ∷ value) j

  abbrev line_names : Text → Text → Bool
  line_names j line = value_names j (strip line)

  abbrev file_names : Text → Option (List Text) → Bool
  file_names j none = false
  file_names j (some lines) = any (line_names j) lines

  abbrev pub names : Setting → Text → Config → Bool
  names k j l = any (λ e. is_setting k (e.0) && file_names j (e.1)) l

  retrieve-add_value :
      (j value : Text) (t : T)
      → p.retrieve j (add_value p strip value t) ≡ (p.retrieve j t || value_names j value)
  unfolding add_value
  retrieve-add_value j [] t = ground arith
  retrieve-add_value j (b ∷ value) t = ground (arith, p.retrieve-add (b ∷ value) j t)

  retrieve-add_lines :
      (j : Text) (lines : List Text) (t : T)
      → p.retrieve j (add_lines p strip lines t) ≡ (p.retrieve j t || any (line_names j) lines)
  unfolding add_lines any
  retrieve-add_lines j [] t = ground arith
  retrieve-add_lines j (line ∷ lines) t = ground (
    arith,
    retrieve-add_value j (strip line) t,
    retrieve-add_lines j lines (add_value p strip (strip line) t),
  )

  retrieve-file :
      (j : Text) (f : Option (List Text)) (t : T)
      → p.retrieve j (add_contents_of_file_to_list p strip f t) ≡ (p.retrieve j t || file_names j f)
  unfolding add_contents_of_file_to_list
  retrieve-file j none t = ground arith
  retrieve-file j (some lines) t = retrieve-add_lines j lines t

  retrieve-handler :
      (j : Text) (k i : Setting) (f : Option (List Text)) (s : Nicklists T)
      → p.retrieve j (list_of k (nicklist_config_handler p strip i f s))
        ≡ (p.retrieve j (list_of k s) || (is_setting k i && file_names j f))
  unfolding nicklist_config_handler
  retrieve-handler j k all f s = ground (arith, retrieve-file j f s.akillalllist)
  retrieve-handler j k nick f s = ground (arith, retrieve-file j f s.akillnicklist)
  retrieve-handler j k user f s = ground (arith, retrieve-file j f s.akilluserlist)
  retrieve-handler j k real f s = ground (arith, retrieve-file j f s.akillreallist)

  retrieve-config :
      (j : Text) (k : Setting) (l : Config) (s : Nicklists T)
      → p.retrieve j (list_of k (read_config l s)) ≡ (p.retrieve j (list_of k s) || names k j l)
  unfolding read_config any
  retrieve-config j k [] s = ground arith
  retrieve-config j k ((i, f) ∷ l) s = ground (
    arith,
    retrieve-config j k l (nicklist_config_handler p strip i f s),
    retrieve-handler j k i f s,
  )

  retrieve-read :
      (j : Text) (k : Setting) (l : Config)
      → p.retrieve j (list_of k (read_config l (created p strip))) ≡ names k j l
  unfolding created
  retrieve-read j all l =
      ground (arith, retrieve-config j all l (created p strip), p.retrieve-create j)
  retrieve-read j nick l =
      ground (arith, retrieve-config j nick l (created p strip), p.retrieve-create j)
  retrieve-read j user l =
      ground (arith, retrieve-config j user l (created p strip), p.retrieve-create j)
  retrieve-read j real l =
      ground (arith, retrieve-config j real l (created p strip), p.retrieve-create j)

  -- A user is named by the files: his nick, his user name without a tilde, or his real name is in a file
  -- of its own setting or of ALL.
  abbrev pub is_named_user : Config → User → Bool
  is_named_user l u =
      names nick u.nick l
      || names user (known u.user) l
      || names real u.gecos l
      || names all u.nick l
      || names all (known u.user) l
      || names all u.gecos l

  appears-read :
      (l : Config) (u : User)
      → appears p strip (read_config l (created p strip)) u ≡ is_named_user l u
  unfolding appears
  appears-read l u = ground (
    arith,
    retrieve-read u.nick nick l,
    retrieve-read (known u.user) user l,
    retrieve-read u.gecos real l,
    retrieve-read u.nick all l,
    retrieve-read (known u.user) all l,
    retrieve-read u.gecos all l,
  )

  -- With the lists that the files of the configuration make, a user who is there is k-lined exactly if
  -- he is no internal client, not exempt, has no k-line yet, and a line of a file names his nick, his
  -- user name without a tilde or his real name, in a file of that setting or of ALL; whatever the lists
  -- are later, a user whom the hook has k-lined is not k-lined by it again.
  pub aknl_nickhook_once :
      (l : Config) (later : Nicklists T) (u : User)
      → let (u', events) = aknl_nickhook p strip (read_config l (created p strip)) (some u) in
        (any is_kline events
          ≡ (not u.internal && not u.exempt && not u.klinesent && is_named_user l u))
        × ((any is_kline events && any is_kline (aknl_nickhook p strip later u').1) ≡ false)
  unfolding aknl_nickhook any
  aknl_nickhook_once l later u = ground (arith, appears-read l u)
