-- ===== src/Services/Database.antt =====
-- The services database as the modules use it: rows of typed fields, written by a db_write hook and
-- handed back, one by one, to the handler that is registered for their type. How a row is stored is
-- the business of the OpenSEX backend, which is not in this repository: it is a parameter.
use atheme_contrib_modules.Prelude.{
  ℕ, ◌≡◌, Bool, true, Option, none, some, List, [], ◌∷◌, if◌then◌else◌,
}
use atheme_contrib_modules.Services.Text.{Text, strcmp_eq}

-- db_write_word(), db_write_time() and db_write_str(). A str is the rest of its row.
pub data Field : Type 0 where
  word : Text → Field
  time : ℕ → Field
  str : Text → Field

-- db_sread_word() and its like take a field off a row, or end the services if there is none. A word
-- comes back as it was written if the backend can hold it as one word.
pub record Backend : Type 1 where
  pub Line : Type 0
  pub store : List Field → Line
  pub is_word : Text → Bool
  pub sread_word : Line → Option (Text × Line)
  pub sread_time : Line → Option (ℕ × Line)
  pub sread_str : Line → Option (Text × Line)
  pub read_word :
      (w : Text) (fs : List Field)
      → is_word w ≡ true
      → sread_word (store (word w ∷ fs)) ≡ some (w, store fs)
  pub read_time : (t : ℕ) (fs : List Field) → sread_time (store (time t ∷ fs)) ≡ some (t, store fs)
  pub read_str : (s : Text) → sread_str (store (str s ∷ [])) ≡ some (s, store [])

infixl 5 ◌>>=◌
abbrev pub ◌>>=◌ {ℓ κ} : {A : Type ℓ} {B : Type κ} → Option A → (A → Option B) → Option B
none >>= f = none
some a >>= f = f a

-- A committed row: the type that db_start_row() was given, and what was written.
abbrev pub Row : Type 0 → Type 0
Row L = Text × L

module _ {L S : Type 0} where
  -- Every row of the type that db_register_type_handler() was given goes to the handler.
  unfoldable pub load : Text → (L → S → Option S) → List (Row L) → S → Option S
  load type handler [] s = some s
  load type handler ((kind, line) ∷ rows) s =
      let rest = λ (t : S). load type handler rows t in
      if strcmp_eq kind type then handler line s >>= rest else rest s
