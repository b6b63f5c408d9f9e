-- ===== src/Transport/Classic/Stream.antt =====
-- src/transport/classic.rs: the bytes that the transport hands on.
use sony_buds_tray_control.Device.State.{connected}
use sony_buds_tray_control.Prelude.{
  Bool, Bool-cases, List, Option, Option-cases, Result, Result-cases, [], ap, append_assoc, arith,
  err, false, inl, inr, length, none, ok, refl, some, subst, suc, sym, true, zero, ℕ, ◌++◌, ◌-◌,
  ◌==◌, ◌∙◌, ◌∷◌, ◌≡◌,
}
use sony_buds_tray_control.Transport.{TransportError}
use sony_buds_tray_control.Transport.Classic.{
  ClassicTransport, ErrorKind, Socket, peeked, poll_read, poll_stream, polled, received, recv,
  recv_stream,
}

-- The bytes that an answer of the socket brings.
abbrev bytes_in : Result ErrorKind (List ℕ) → List ℕ
bytes_in (ok bs) = bs
bytes_in (err _) = []

-- The byte that is kept of a read of one byte.
abbrev pub byte_in : Option (Result ErrorKind (List ℕ)) → List ℕ
byte_in (some (ok (b ∷ _))) = b ∷ []
byte_in _ = []

-- A stream socket: a read takes bytes off the front of what is to come, and no others; one that fails
-- or runs out of time takes none.
pub record IsStream {S : Type 0} (sock : Socket S) (content : S → List ℕ) : Type 0 where
  pub reads : (n : ℕ) (s : S) → content s ≡ bytes_in (sock.read n s).0 ++ content (sock.read n s).1
  pub reads_one : (s : S) → content s ≡ byte_in (sock.read_one s).0 ++ content (sock.read_one s).1

module _ {S : Type 0} (content : S → List ℕ) where
  abbrev to_come : Option S → List ℕ
  to_come none = []
  to_come (some s) = content s

  -- What the transport has still to hand on.
  abbrev pub pending : ClassicTransport S → List ℕ
  pending c = peeked c.peek ++ to_come c.stream

-- A transport by its parts.
abbrev parts : {S : Type 0} → Option S → Option ℕ → Bool → ClassicTransport S
parts s b connected = record { stream = s; peek = b; connected = connected }

polled-pending :
    {S : Type 0} (content : S → List ℕ) (s : S) (r : Option (Result ErrorKind (List ℕ)))
    → pending content (polled (parts (some s) none true) r).1 ≡ byte_in r ++ content s
unfolding polled
polled-pending content s none = refl
polled-pending content s (some (ok [])) = refl
polled-pending content s (some (ok (b ∷ bs))) = refl
polled-pending content s (some (err e)) = refl

abbrev fine : List ℕ → Result TransportError (List ℕ)
fine bs = ok bs

ok_same : (bs bs' : List ℕ) → fine bs ≡ fine bs' → bs ≡ bs'
ok_same bs bs' h = cc

-- The bytes behind the one that was peeked.
received-ok :
    (p bs : List ℕ) (r : Result ErrorKind (List ℕ)) → received p r ≡ ok bs → bs ≡ p ++ bytes_in r
unfolding received
received-ok [] bs (ok []) h = absurd cc
received-ok [] bs (ok (b ∷ more)) h = ground arith
received-ok (x ∷ p) bs (ok more) h = ground arith
received-ok [] bs (err e) h = absurd cc
received-ok (x ∷ p) bs (err e) h = absurd cc

-- A use of the transport: readiness is asked for, or bytes are, up to a number.
pub data Call : Type 0 where
  poll : Call
  take : ℕ → Call

module _ {S : Type 0} (sock : Socket S) (content : S → List ℕ)
    (stream : IsStream sock content) where
  poll_read-parts :
      (s : Option S) (b : Option ℕ) (connected : Bool)
      → pending content (poll_read sock (parts s b connected)).1
        ≡ pending content (parts s b connected)
  unfolding poll_read poll_stream
  poll_read-parts s (some b) connected = refl
  poll_read-parts s none false = refl
  poll_read-parts none none true = refl
  poll_read-parts (some s) none true =
      let answer = sock.read_one s in
      polled-pending content answer.1 answer.0 ∙ sym (stream.reads_one s)

  -- The peeked byte fills the room.
  recv_stream_full :
      (room : ℕ) (s : S) (b : Option ℕ) (connected : Bool)
      → (suc room - length (peeked b) == 0) ≡ true
      → recv_stream sock (suc room) (parts (some s) b connected) s
        ≡ (ok (peeked b), parts (some s) none connected)
  unfolding recv_stream
  recv_stream_full room s b connected full = rw (recv_stream, full) refl

  recv_stream_more :
      (room : ℕ) (s : S) (b : Option ℕ) (connected : Bool)
      → (suc room - length (peeked b) == 0) ≡ false
      → recv_stream sock (suc room) (parts (some s) b connected) s ≡ (
        received (peeked b) (sock.read (suc room - length (peeked b)) s).0,
        parts (some (sock.read (suc room - length (peeked b)) s).1) none connected,
      )
  unfolding recv_stream
  recv_stream_more room s b connected more = rw (recv_stream, more) refl

  recv_stream-pending :
      (room : ℕ) (s : S) (b : Option ℕ) (connected : Bool) (bs : List ℕ)
      → (recv_stream sock room (parts (some s) b connected) s).0 ≡ ok bs
      → pending content (parts (some s) b connected)
        ≡ bs ++ pending content (recv_stream sock room (parts (some s) b connected) s).1
  unfolding recv_stream
  recv_stream-pending zero s b connected bs h =
      ap (λ r. r ++ pending content (parts (some s) b connected)) (ok_same [] bs h)
  recv_stream-pending (suc room) s b connected bs h =
      let left = suc room - length (peeked b) in
      let answer = sock.read left s in
      elim (Bool-cases (left == 0)) [
        | inl full ↦
            let eqn = recv_stream_full room s b connected full in
            subst (λ r. pending content (parts (some s) b connected) ≡ bs ++ pending content r.1)
              (sym eqn)
              (ap (λ r. r ++ content s) (ok_same (peeked b) bs (subst (λ r. r.0 ≡ ok bs) eqn h)))
        | inr more ↦
            let eqn = recv_stream_more room s b connected more in
            let got = received-ok (peeked b) bs answer.0 (subst (λ r. r.0 ≡ ok bs) eqn h) in
            subst (λ r. pending content (parts (some s) b connected) ≡ bs ++ pending content r.1)
              (sym eqn)
              (ap (λ r. peeked b ++ r) (stream.reads left s)
                ∙ (sym (append_assoc (peeked b) (bytes_in answer.0) (content answer.1))
                    ∙ ap (λ r. r ++ content answer.1) (sym got)))
      ]

  recv-parts :
      (room : ℕ) (s : Option S) (b : Option ℕ) (connected : Bool) (bs : List ℕ)
      → (recv sock room (parts s b connected)).0 ≡ ok bs
      → pending content (parts s b connected)
        ≡ bs ++ pending content (recv sock room (parts s b connected)).1
  unfolding recv
  recv-parts room none b connected bs h = absurd cc
  recv-parts room (some s) b connected bs h = recv_stream-pending room s b connected bs h

  -- The bytes of the reads that succeed, one after the other; `none` when a read fails.
  abbrev and_more :
      List ℕ → Option (List ℕ × ClassicTransport S) → Option (List ℕ × ClassicTransport S)
  and_more bs none = none
  and_more bs (some (more, c)) = some (bs ++ more, c)

  unfoldable pub drain : List Call → ClassicTransport S → Option (List ℕ × ClassicTransport S)
  unfolding poll_read recv
  drain [] c = some ([], c)
  drain (poll ∷ calls) c = drain calls (poll_read sock c).1
  drain (take n ∷ calls) c =
      let got = recv sock n c in
      let rest = drain calls got.1 in elim got.0 [ err e ↦ none | ok bs ↦ and_more bs rest ]

  some_same : (p q : List ℕ × ClassicTransport S) → some p ≡ some q → p ≡ q
  some_same p q h = cc

  not_none : (p : List ℕ × ClassicTransport S) → some p ≡ none → ⊥
  not_none p h = absurd cc

  drain_failed :
      (n : ℕ) (calls : List Call) (c : ClassicTransport S) (e : TransportError)
      → (recv sock n c).0 ≡ err e
      → drain (take n ∷ calls) c ≡ none
  unfolding drain
  drain_failed n calls c e failed = rw (drain, failed) refl

  drain_broken :
      (n : ℕ) (calls : List Call) (c : ClassicTransport S) (first : List ℕ)
      → (recv sock n c).0 ≡ ok first
      → drain calls (recv sock n c).1 ≡ none
      → drain (take n ∷ calls) c ≡ none
  unfolding drain
  drain_broken n calls c first taken broken = rw (drain, taken, broken) refl

  drain_taken :
      (n : ℕ) (calls : List Call) (c c' : ClassicTransport S) (first more : List ℕ)
      → (recv sock n c).0 ≡ ok first
      → drain calls (recv sock n c).1 ≡ some (more, c')
      → drain (take n ∷ calls) c ≡ some (first ++ more, c')
  unfolding drain
  drain_taken n calls c c' first more taken done' = rw (drain, taken, done') refl

  -- Whatever the order in which readiness and bytes are asked for, the bytes that the transport hands on
  -- are those of the socket, each once and in order, as long as no read fails, on a socket that is a
  -- stream: the byte that a question for readiness takes is not lost and not moved.
  pub drain-pending :
      (calls : List Call) (c c' : ClassicTransport S) (bs : List ℕ)
      → drain calls c ≡ some (bs, c')
      → pending content c ≡ bs ++ pending content c'
  unfolding drain
  drain-pending [] c c' bs h = ap (λ p. p.0 ++ pending content p.1) (some_same ([], c) (bs, c') h)
  drain-pending (poll ∷ calls) c c' bs h =
      sym (poll_read-parts c.stream c.peek c.connected)
      ∙ drain-pending calls (poll_read sock c).1 c' bs h
  drain-pending (take n ∷ calls) c c' bs h =
      let got = recv sock n c in
      elim (Result-cases got.0) [
        | inr (e, failed) ↦ absurd (not_none (bs, c') (sym h ∙ drain_failed n calls c e failed))
        | inl (first, taken) ↦ elim (Option-cases (drain calls got.1)) [
          | inl broken ↦
              absurd (not_none (bs, c') (sym h ∙ drain_broken n calls c first taken broken))
          | inr ((more, c''), done') ↦
              let whole =
                some_same (first ++ more, c'') (bs, c')
                  (sym (drain_taken n calls c c'' first more taken done') ∙ h) in
              recv-parts n c.stream c.peek c.connected first taken
              ∙ (ap (λ r. first ++ r) (drain-pending calls got.1 c'' more done')
                  ∙ (sym (append_assoc first more (pending content c''))
                      ∙ ap (λ p. p.0 ++ pending content p.1) whole))
        ]
      ]
