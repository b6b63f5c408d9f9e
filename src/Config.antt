-- ===== src/Config.antt =====
-- src/config.rs: the settings that are kept between two runs, and the text of their file. Reading and
-- writing the file are up to the file system.

pub mod RoundTrip
use sony_buds_tray_control.Prelude.{
  Bool, List, Option, [], bool_eq, eq, false, if◌then◌else◌, int_eq, list_eq, nat_eq, none, not,
  option_eq, some, true, ℕ, ◌&&◌, ◌++◌, ◌==◌, ◌∷◌,
}
use sony_buds_tray_control.Protocol.Enums.{enum_eq}
use sony_buds_tray_control.Text.{String, drop_end_while, drop_while, trim}
use sony_buds_tray_control.Text.Literal.{text}

pub record Config : Type 0 where
  pub auto_connect : Bool
  pub last_device : Option String

abbrev pub default_config : Config
default_config = record { auto_connect = false; last_device = none }

abbrev pub newline : ℕ
newline = b'\n'

abbrev pub quote : ℕ
quote = b'"'

abbrev pub bool_text : Bool → String
bool_text true = text "true"
bool_text false = text "false"

abbrev pub quoted : Option String → String
quoted none = quote ∷ quote ∷ []
quoted (some m) = quote ∷ m ++ quote ∷ []

-- What `save` writes.
unfoldable pub file_text : Config → String
file_text c =
    text "auto_connect = "
    ++ (bool_text c.auto_connect
        ++ newline ∷ (text "last_device = " ++ (quoted c.last_device ++ newline ∷ [])))

-- `str::lines`: a line ends at a newline or at the end of the text, and loses the return in front.
abbrev with_char : ℕ → List String → List String
with_char c [] = (c ∷ []) ∷ []
with_char c (l ∷ ls) = (c ∷ l) ∷ ls

abbrev ends_line : String → Bool
ends_line [] = false
ends_line (c ∷ _) = c == newline

unfoldable pub lines : String → List String
lines [] = []
lines (c ∷ cs) =
    let rest = lines cs in
    if c == newline
    then [] ∷ rest
    else if c == b'\r' && ends_line cs
    then rest
    else with_char c rest

abbrev before : ℕ → Option (String × String) → Option (String × String)
before c none = none
before c (some (k, v)) = some (c ∷ k, v)

-- `str::split_once('=')`.
unfoldable pub split_once : String → Option (String × String)
split_once [] = none
split_once (c ∷ cs) = let rest = split_once cs in if c == b'=' then some ([], cs) else before c rest

-- `str::trim_matches('"')`.
unfoldable pub trim_quotes : String → String
unfolding drop_while
trim_quotes s = drop_end_while (λ c. c == quote) (drop_while (λ c. c == quote) s)

unfoldable pub is_empty : String → Bool
is_empty [] = true
is_empty (_ ∷ _) = false

-- The arms of the match on a key.
unfoldable pub set_key : String → String → Config → Config
unfolding is_empty
set_key k v c =
    if eq k (text "auto_connect")
    then record c { auto_connect = eq v (text "true") }
    else if eq k (text "last_device") && not (is_empty v)
    then record c { last_device = some v }
    else c

unfoldable pub load_line : Config → String → Config
unfolding trim split_once trim_quotes set_key
load_line c line = elim (split_once (trim line)) [
  | none ↦ c
  | some (k, v) ↦ set_key (trim k) (trim_quotes (trim v)) c
]

unfoldable pub load_lines : List String → Config → Config
unfolding load_line
load_lines [] c = c
load_lines (l ∷ ls) c = load_lines ls (load_line c l)

-- `load_from`, on what reading the file gives.
unfoldable pub load_text : Option String → Config
unfolding load_lines lines
load_text none = default_config
load_text (some s) = load_lines (lines s) default_config
