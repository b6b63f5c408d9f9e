-- ===== src/Protocol/Payloads/Base.antt =====
-- src/protocol/payloads.rs: the trait `Payload`, its `serialize` and `deserialize`.
use sony_buds_tray_control.Protocol.Codec.Reader
use sony_buds_tray_control.Protocol.Codec.Writer
use sony_buds_tray_control.Prelude.{List, Option, err, none, ok, some, ℕ, ◌≡◌}
use sony_buds_tray_control.Protocol.Codec.Error.{Op, SerResult}
use sony_buds_tray_control.Protocol.Codec.Reader.{Reader}
use sony_buds_tray_control.Protocol.Codec.Writer.{Write, Writer}

pub record Payload (A : Type 0) : Type 0 where
  pub write : A → Write
  pub read : Op Reader A

module _ {A : Type 0} ⦃p : Payload A⦄ where
  -- The source unwraps the result of `write`: `none` is its panic.
  unfoldable pub serialize : A → Option (List ℕ)
  unfolding Writer.new
  serialize a = elim (p.write a (Writer.new 64)) [ ok (_, w) ↦ some w.buf | err _ ↦ none ]

  unfoldable pub deserialize : List ℕ → SerResult A
  unfolding Reader.new
  deserialize bytes = elim (p.read (Reader.new bytes)) [ ok (a, _) ↦ ok a | err e ↦ err e ]

  -- What is written is read again.
  abbrev pub RoundTrip : A → Type 0
  RoundTrip a = elim (serialize a) [ none ↦ ⊥ | some bytes ↦ deserialize bytes ≡ ok a ]
