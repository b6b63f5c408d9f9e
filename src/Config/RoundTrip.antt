-- ===== src/Config/RoundTrip.antt =====
-- src/config.rs: what is read from the file that was written.
-- A character of an address: no space, no quote, and nothing that ends a line.
use mathlib.Core.List.{reverse, reverse-append, reverse-cons, reverse-reverse}
use sony_buds_tray_control.Config.{
  Config, bool_text, default_config, file_text, is_empty, lines, load_line, load_lines, load_text,
  newline, quote, quoted, set_key, split_once, trim_quotes,
}
use sony_buds_tray_control.Prelude.{
  All, All-append, Bool, Option, [], ap, arith, false, list_beq, none, refl, some, subst, sym, true,
  ℕ, ◌++◌, ◌==◌, ◌∙◌, ◌∷◌, ◌≡◌,
}
use sony_buds_tray_control.Text.{String, drop_end_while, drop_while, is_whitespace, trim}
use sony_buds_tray_control.Text.Literal.{text}

abbrev pub PlainChar : ℕ → Type 0
PlainChar c = (is_whitespace c ≡ false) × ((c == quote) ≡ false)

abbrev pub Plain : String → Type 0
Plain m = All PlainChar m

-- A character that does not end a line.
abbrev Inline : ℕ → Type 0
Inline c = ((c == newline) ≡ false) × ((c == b'\r') ≡ false)

PlainChar-Inline : (c : ℕ) → PlainChar c → Inline c
unfolding is_whitespace
PlainChar-Inline c plain = ground arith

Plain-Inline : (m : String) → Plain m → All Inline m
Plain-Inline [] h = tt
Plain-Inline (c ∷ cs) h = (PlainChar-Inline c h.0, Plain-Inline cs h.1)

lines-line : (l rest : String) → All Inline l → lines (l ++ newline ∷ rest) ≡ l ∷ lines rest
unfolding lines
lines-line [] rest h = refl
lines-line (c ∷ cs) rest h = rw (lines, h.0.0, h.0.1, lines-line cs rest h.1) refl

-- Nothing is dropped from text in front of which nothing is to be dropped.
drop_while_none : (p : ℕ → Bool) (s : String) → All (λ c. p c ≡ false) s → drop_while p s ≡ s
unfolding drop_while
drop_while_none p [] h = refl
drop_while_none p (c ∷ cs) h = rw (drop_while, h.0) refl

All-reverse : (P : ℕ → Type 0) (s : String) → All P s → All P (reverse s)
All-reverse P [] h = tt
All-reverse P (c ∷ cs) h =
    subst (All P) (sym (reverse-cons c cs))
      (All-append P (reverse cs) (c ∷ []) (All-reverse P cs h.1) (h.0, tt))

-- The end of text whose last character stays.
drop_end_while-last :
    (p : ℕ → Bool) (s : String) (c : ℕ) → p c ≡ false → drop_end_while p (s ++ c ∷ []) ≡ s ++ c ∷ []
unfolding drop_while
drop_end_while-last p s c h =
    rw (reverse-append s (c ∷ []), drop_while, h)
      (reverse-cons c (reverse s) ∙ ap (λ r. r ++ c ∷ []) (reverse-reverse s))

drop_end_while-drop :
    (p : ℕ → Bool) (s : String) (c : ℕ)
    → p c ≡ true
    → All (λ d. p d ≡ false) s
    → drop_end_while p (s ++ c ∷ []) ≡ s
unfolding drop_while
drop_end_while-drop p s c h plain =
    rw
      (
        reverse-append s (c ∷ []),
        drop_while,
        h,
        drop_while_none p (reverse s) (All-reverse _ s plain),
      )
      (reverse-reverse s)

abbrev prefix : String
prefix = text "last_device = "

prefix-Inline : All Inline prefix
prefix-Inline = ground arith

flag_line : Bool → String
flag_line b = text "auto_connect = " ++ bool_text b

flag_line-Inline : (b : Bool) → All Inline (flag_line b)
unfolding flag_line
flag_line-Inline true = ground arith
flag_line-Inline false = ground arith

load_line-flag : (b : Bool) (c : Config) → load_line c (flag_line b) ≡ record c { auto_connect = b }
unfolding flag_line load_line trim split_once trim_quotes set_key is_empty drop_while is_whitespace
    list_beq
load_line-flag true c = refl
load_line-flag false c = refl

load_line-none : (c : Config) → load_line c (prefix ++ quoted none) ≡ c
unfolding load_line trim split_once trim_quotes set_key is_empty drop_while is_whitespace list_beq
load_line-none c = refl

trim-address : (m : String) → trim (b' ' ∷ quote ∷ (m ++ quote ∷ [])) ≡ quote ∷ (m ++ quote ∷ [])
unfolding trim drop_while is_whitespace
trim-address m = drop_end_while-last is_whitespace (quote ∷ m) quote refl

Plain-unquoted : (s : String) → Plain s → All (λ c. (c == quote) ≡ false) s
Plain-unquoted [] h = tt
Plain-unquoted (c ∷ cs) h = (h.0.1, Plain-unquoted cs h.1)

key_device :
    (c : Config) (x : ℕ) (m : String)
    → set_key (trim (text "last_device ")) (x ∷ m) c ≡ record c { last_device = some (x ∷ m) }
unfolding set_key is_empty trim drop_while is_whitespace list_beq
key_device c x m = refl

trim_quotes-address :
    (x : ℕ) (m : String) → Plain (x ∷ m) → trim_quotes (quote ∷ x ∷ (m ++ quote ∷ [])) ≡ x ∷ m
unfolding trim_quotes drop_while
trim_quotes-address x m plain =
    rw (trim_quotes, drop_while, plain.0.1)
      (drop_end_while-drop (λ c. c == quote) (x ∷ m) quote refl (Plain-unquoted (x ∷ m) plain))

trim-line :
    (m : String) → trim (prefix ++ quote ∷ (m ++ quote ∷ [])) ≡ prefix ++ quote ∷ (m ++ quote ∷ [])
unfolding trim drop_while is_whitespace
trim-line m = drop_end_while-last is_whitespace (prefix ++ quote ∷ m) quote refl

load_line-some :
    (c : Config) (x : ℕ) (m : String)
    → Plain (x ∷ m)
    → load_line c (prefix ++ quoted (some (x ∷ m))) ≡ record c { last_device = some (x ∷ m) }
unfolding load_line split_once set_key is_empty list_beq
load_line-some c x m plain =
    rw (load_line, trim-line (x ∷ m), trim-address (x ∷ m), trim_quotes-address x m plain)
      (key_device c x m)

-- What the program can hold as the last device: nothing, or an address that is not empty and has no
-- space and no quote.
abbrev pub Storable : Option String → Type 0
Storable none = Unit
Storable (some []) = ⊥
Storable (some (x ∷ m)) = Plain (x ∷ m)

device_line : Option String → String
device_line d = prefix ++ quoted d

device_line-Inline : (d : Option String) → Storable d → All Inline (device_line d)
unfolding device_line
device_line-Inline none h =
    All-append Inline prefix (quoted none) prefix-Inline ((refl, refl), ((refl, refl), tt))
device_line-Inline (some []) h = absurd h
device_line-Inline (some (x ∷ m)) h =
    All-append Inline prefix (quote ∷ ((x ∷ m) ++ quote ∷ [])) prefix-Inline (
      (refl, refl),
      All-append Inline (x ∷ m) (quote ∷ []) (Plain-Inline (x ∷ m) h) ((refl, refl), tt),
    )

abbrev flagged : Bool → Config
flagged b = record default_config { auto_connect = b }

load_line-device :
    (b : Bool) (d : Option String)
    → Storable d
    → load_line (flagged b) (device_line d) ≡ record { auto_connect = b; last_device = d }
unfolding device_line
load_line-device b none h = load_line-none (flagged b)
load_line-device b (some []) h = absurd h
load_line-device b (some (x ∷ m)) h = load_line-some (flagged b) x m h

lines-file :
    (c : Config)
    → Storable c.last_device
    → lines (file_text c) ≡ flag_line c.auto_connect ∷ device_line c.last_device ∷ []
unfolding file_text flag_line device_line lines
lines-file c h =
    lines-line (flag_line c.auto_connect) (device_line c.last_device ++ newline ∷ [])
      (flag_line-Inline c.auto_connect)
    ∙ ap (λ ls. flag_line c.auto_connect ∷ ls)
        (lines-line (device_line c.last_device) [] (device_line-Inline c.last_device h))

-- The settings that are read from the file that was written are those that were written, if the last
-- device is absent, or an address that is not empty and has no space and no quote in it.
pub load_text-file_text : (c : Config) → Storable c.last_device → load_text (some (file_text c)) ≡ c
unfolding load_text load_lines
load_text-file_text c h =
    rw (lines-file c h, load_line-flag c.auto_connect default_config)
      (load_line-device c.auto_connect c.last_device h)
