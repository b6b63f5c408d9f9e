-- ===== src/Protocol/Codec/RoundTrip.antt =====
-- src/protocol/codec.rs: the writer and the reader together.
use sony_buds_tray_control.Protocol.Codec.Reader
use sony_buds_tray_control.Protocol.Codec.Writer
use sony_buds_tray_control.Prelude.{
  All, List, [], ap, arith, length, ok, refl, take, ℕ, ◌%◌, ◌+◌, ◌<◌, ◌∙◌, ◌∷◌, ◌≡◌,
}
use sony_buds_tray_control.Protocol.Codec.Error.{Op, pure, ◌>>=◌}
use sony_buds_tray_control.Protocol.Codec.Reader.{Reader}
use sony_buds_tray_control.Protocol.Codec.Writer.{Writer}
use sony_buds_tray_control.Text.{String, as_bytes, from_utf8_lossy}
use sony_buds_tray_control.Text.Utf8.{IsChar, from_utf8_lossy-as_bytes}

take-length : (xs : List ℕ) → take (length xs) xs ≡ xs
take-length [] = refl
take-length (x ∷ xs) = ap (◌∷◌ x) (take-length xs)

-- The bytes of a string behind its length.
abbrev pub prefixed : String → List ℕ
prefixed s = length (as_bytes s) % 256 ∷ as_bytes s

write-prefixed_string :
    (s : String) (limit : ℕ)
    → length (as_bytes s) < 256
    → length (as_bytes s) < limit
    → Writer.prefixed_string s (Writer.new limit)
      ≡ ok (tt, record { buf = prefixed s; limit = limit })
unfolding Writer.prefixed_string Writer.u8 Writer.bytes Writer.new
write-prefixed_string s limit short fits = ground arith

bind-ok :
    {S A B : Type 0} (m : Op S A) (f : A → Op S B) (r : S) (a : A) (r' : S)
    → m r ≡ ok (a, r')
    → (m >>= f) r ≡ f a r'
bind-ok m f r a r' h = rw (◌>>=◌, h) refl

take-one :
    (b : ℕ) (bs : List ℕ)
    → Reader.take 1 (Reader.new (b ∷ bs)) ≡ ok (b ∷ [], record { buf = b ∷ bs; pos = 1 })
unfolding Reader.take Reader.new Reader.remaining
take-one b bs = ground arith

u8-new :
    (b : ℕ) (bs : List ℕ)
    → Reader.u8 (Reader.new (b ∷ bs)) ≡ ok (b, record { buf = b ∷ bs; pos = 1 })
unfolding Reader.u8
u8-new b bs = bind-ok (Reader.take 1) _ (Reader.new (b ∷ bs)) _ _ (take-one b bs)

take-behind :
    (n b : ℕ) (bs : List ℕ)
    → n ≡ length bs
    → Reader.take n (record { buf = b ∷ bs; pos = 1 })
      ≡ ok (bs, record { buf = b ∷ bs; pos = 1 + n })
unfolding Reader.take Reader.remaining
take-behind n b bs same = ground (arith, same, take-length bs)

read-prefixed_string :
    (s : String)
    → All IsChar s
    → length (as_bytes s) < 256
    → Reader.read_prefixed_string (Reader.new (prefixed s))
      ≡ ok (s, record { buf = prefixed s; pos = 1 + length (as_bytes s) % 256 })
unfolding Reader.read_prefixed_string
read-prefixed_string s chars short =
    let n = length (as_bytes s) % 256 in
    bind-ok Reader.u8 _ (Reader.new (prefixed s)) _ _ (u8-new n (as_bytes s))
    ∙ bind-ok (Reader.take n) (λ b. pure (from_utf8_lossy b)) (record { buf = prefixed s; pos = 1 })
        _ _ (take-behind n n (as_bytes s) (omega (arith, short)))
    ∙ rw (from_utf8_lossy-as_bytes s chars) refl

-- A string of characters whose bytes are fewer than 256, and fit the limit with their length, is
-- written, and what is written reads back as the string.
pub prefixed_string_lem :
    (s : String) (limit : ℕ)
    → All IsChar s
    → length (as_bytes s) < 256
    → length (as_bytes s) < limit
    → (Writer.prefixed_string s (Writer.new limit)
        ≡ ok (tt, record { buf = prefixed s; limit = limit }))
      × (Reader.read_prefixed_string (Reader.new (prefixed s))
          ≡ ok (s, record { buf = prefixed s; pos = 1 + length (as_bytes s) % 256 }))
prefixed_string_lem s limit chars short fits =
    (write-prefixed_string s limit short fits, read-prefixed_string s chars short)
