-- ===== src/Tests/Transport.antt =====
-- src/transport: the transports at concrete inputs.
use sony_buds_tray_control.Prelude.{
  List, [], ap, arith, drop, length, none, ok, refl, some, suc, take, true, zero, ℕ, ◌++◌, ◌<◌, ◌∷◌,
  ◌≡◌,
}
use sony_buds_tray_control.Transport.Classic.{ClassicTransport, Socket, poll_read, recv}
use sony_buds_tray_control.Transport.Classic.Address.{
  Hex, address_text, parse_mac, parse_mac-address_text,
}
use sony_buds_tray_control.Transport.Classic.Stream.{
  Call, IsStream, byte_in, drain, drain-pending, pending,
}

-- A socket that hands out the bytes that it holds.
abbrev queue : Socket (List ℕ)
queue = record {
  read = λ n s. (ok (take n s), drop n s);
  read_one = λ s. (some (ok (take 1 s)), drop 1 s);
  write = λ bytes s. (ok (length bytes), s);
}

take-drop_queue : (n : ℕ) (s : List ℕ) → s ≡ take n s ++ drop n s
take-drop_queue zero s = refl
take-drop_queue (suc n) [] = refl
take-drop_queue (suc n) (x ∷ s) = ap (λ r. x ∷ r) (take-drop_queue n s)

first_queue : (s : List ℕ) → s ≡ byte_in (some (ok (take 1 s))) ++ drop 1 s
first_queue [] = refl
first_queue (x ∷ s) = refl

queue-IsStream : IsStream queue (λ s. s)
queue-IsStream = record { reads = take-drop_queue; reads_one = first_queue }

abbrev link : ClassicTransport (List ℕ)
link = record { stream = some (1 ∷ 2 ∷ 3 ∷ []); peek = none; connected = true }

abbrev rest : ClassicTransport (List ℕ)
rest = record { stream = some (3 ∷ []); peek = none; connected = true }

drain-pending_example : pending (λ s. s) link ≡ (1 ∷ 2 ∷ []) ++ pending (λ s. s) rest
unfolding drain poll_read recv
drain-pending_example =
    drain-pending queue (λ s. s) queue-IsStream (Call.poll ∷ Call.take 2 ∷ []) link rest
      (1 ∷ 2 ∷ []) refl

abbrev hex : (hi lo : ℕ) → hi < 16 → lo < 16 → Hex
hex hi lo h l = record { hi = hi; lo = lo; hi_ok = h; lo_ok = l }

abbrev ac : Hex
ac = hex 10 12 (omega arith) (omega arith)

abbrev x80 : Hex
x80 = hex 8 0 (omega arith) (omega arith)

parse_mac-address_text_example :
    parse_mac (address_text ac (x80 ∷ x80 ∷ x80 ∷ ac ∷ x80 ∷ []))
    ≡ ok (record { b = 128 ∷ 172 ∷ 128 ∷ 128 ∷ 128 ∷ 172 ∷ [] })
parse_mac-address_text_example = parse_mac-address_text ac (x80 ∷ x80 ∷ x80 ∷ ac ∷ x80 ∷ [])
