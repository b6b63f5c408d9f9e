-- ===== src/Protocol/Codec/Error.antt =====
-- src/protocol/codec.rs: `SerError`, `SerResult`, and the chaining of fallible operations by `?`.
use sony_buds_tray_control.Prelude.{ℕ, Result, ok, err}
use sony_buds_tray_control.Text.{String}

pub data SerError : Type 0 where
  buffer_too_small malformed invalid_argument : SerError
  validation : String → SerError

unfoldable pub to_result_code : SerError → ℕ
to_result_code buffer_too_small = 9
to_result_code malformed = 10
to_result_code invalid_argument = 11
to_result_code (validation _) = 10

abbrev pub SerResult : Type 0 → Type 0
SerResult A = Result SerError A

-- An operation on a cursor of type `S`.
abbrev pub Op : Type 0 → Type 0 → Type 0
Op S A = S → SerResult (A × S)

infixl 5 ◌>>=◌ ◌>>◌
abbrev pub ◌>>=◌ : {S A B : Type 0} → Op S A → (A → Op S B) → Op S B
◌>>=◌ m f s = elim (m s) [ ok (a, s') ↦ f a s' | err e ↦ err e ]

abbrev pub ◌>>◌ : {S A B : Type 0} → Op S A → Op S B → Op S B
m >> k = m >>= λ _. k

abbrev pub pure : {S A : Type 0} → A → Op S A
pure a s = ok (a, s)

abbrev pub fail : {S A : Type 0} → SerError → Op S A
fail e s = err e
