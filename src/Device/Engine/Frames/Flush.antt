-- ===== src/Device/Engine/Frames/Flush.antt =====
-- src/device/engine.rs: `flush_send_buf` on transports that take in what they are given.
use sony_buds_tray_control.Device.Engine.Defs.{Engine}
use sony_buds_tray_control.Device.Engine.Frames.{Flushed, chunk_size, flush_from, flush_send_buf}
use sony_buds_tray_control.Prelude.{
  Bool-cases, List, Result-cases, [], ap, append_assoc, arith, drop, err, false, inl, inr, length,
  length-drop, ltb, none, ok, refl, some, suc, sym, take, take-append-drop, true, zero, ℕ, ◌++◌,
  ◌∙◌, ◌∷◌, ◌≡◌, ◌≤◌,
}
use sony_buds_tray_control.Transport.{Transport, TransportError, no_connection}

-- What a transport does that accepts bytes: `log` is what it accepted so far, in order.
pub record IsFaithful {C : Type 0} (t : Transport C) (log : C → List ℕ) : Type 0 where
  pub accepts :
      (chunk : List ℕ) (c : C) (n : ℕ)
      → (t.send chunk c).0 ≡ ok n
      → (n ≤ length chunk) × (log ((t.send chunk c).1) ≡ log c ++ take n chunk)

-- The bytes that were taken in, and those that wait.
abbrev pub delivered : {C : Type 0} → (C → List ℕ) → Flushed C → List ℕ
delivered log f = log f.conn ++ f.left

take-all : (n : ℕ) (xs : List ℕ) → length xs ≤ n → take n xs ≡ xs
take-all zero [] h = refl
take-all zero (x ∷ xs) h = absurd (omega (arith, h))
take-all (suc n) [] h = refl
take-all (suc n) (x ∷ xs) h = ap (◌∷◌ x) (take-all n xs (omega (arith, h)))

module _ {C : Type 0} (t : Transport C) where
  flush_err :
      (fuel b : ℕ) (bs : List ℕ) (c : C) (why : TransportError)
      → (t.send (take chunk_size (b ∷ bs)) c).0 ≡ err why
      → (flush_from t (suc fuel) (b ∷ bs) c).error ≡ some why
  unfolding flush_from
  flush_err fuel b bs c why h = rw (flush_from, h) refl

  flush_zero :
      (fuel b : ℕ) (bs : List ℕ) (c : C)
      → (t.send (take chunk_size (b ∷ bs)) c).0 ≡ ok 0
      → (flush_from t (suc fuel) (b ∷ bs) c).error ≡ some no_connection
  unfolding flush_from
  flush_zero fuel b bs c h = rw (flush_from, h) refl

  flush_part :
      (fuel b : ℕ) (bs : List ℕ) (c : C) (n : ℕ)
      → (t.send (take chunk_size (b ∷ bs)) c).0 ≡ ok (suc n)
      → ltb (suc n) (length (take chunk_size (b ∷ bs))) ≡ true
      → flush_from t (suc fuel) (b ∷ bs) c ≡ record {
        error = none;
        left = drop (suc n) (take chunk_size (b ∷ bs)) ++ drop chunk_size (b ∷ bs);
        conn = (t.send (take chunk_size (b ∷ bs)) c).1;
      }
  unfolding flush_from
  flush_part fuel b bs c n h k = rw (flush_from, h, k) refl

  flush_whole :
      (fuel b : ℕ) (bs : List ℕ) (c : C) (n : ℕ)
      → (t.send (take chunk_size (b ∷ bs)) c).0 ≡ ok (suc n)
      → ltb (suc n) (length (take chunk_size (b ∷ bs))) ≡ false
      → flush_from t (suc fuel) (b ∷ bs) c
        ≡ flush_from t fuel (drop chunk_size (b ∷ bs)) (t.send (take chunk_size (b ∷ bs)) c).1
  unfolding flush_from
  flush_whole fuel b bs c n h k = rw (flush_from, h, k) refl

module _ {C : Type 0} (t : Transport C) (log : C → List ℕ) (faithful : IsFaithful t log) where
  -- A chunk that was accepted whole.
  log-whole :
      (chunk rest : List ℕ) (c : C) (n : ℕ)
      → (t.send chunk c).0 ≡ ok n
      → ltb n (length chunk) ≡ false
      → log ((t.send chunk c).1) ++ rest ≡ log c ++ (chunk ++ rest)
  log-whole chunk rest c n sent all =
      rw ((faithful.accepts chunk c n sent).1, take-all n chunk (ground arith))
        (append_assoc (log c) chunk rest)

  -- A chunk that was accepted in part, its rest put back.
  log-part :
      (chunk rest : List ℕ) (c : C) (n : ℕ)
      → (t.send chunk c).0 ≡ ok n
      → log ((t.send chunk c).1) ++ (drop n chunk ++ rest) ≡ log c ++ (chunk ++ rest)
  log-part chunk rest c n sent =
      rw
        (
          (faithful.accepts chunk c n sent).1,
          append_assoc (log c) (take n chunk) (drop n chunk ++ rest),
          sym (append_assoc (take n chunk) (drop n chunk) rest),
          take-append-drop n chunk,
        )
        refl

  flush_from-delivered :
      (fuel : ℕ) (buf : List ℕ) (c : C)
      → (flush_from t fuel buf c).error ≡ none
      → delivered log (flush_from t fuel buf c) ≡ log c ++ buf
  flush_from-delivered zero buf c h = unfold flush_from in refl
  flush_from-delivered (suc fuel) [] c h = unfold flush_from in refl
  flush_from-delivered (suc fuel) (b ∷ bs) c h =
      let chunk = take chunk_size (b ∷ bs) in
      let rest = drop chunk_size (b ∷ bs) in
      let whole : log c ++ (chunk ++ rest) ≡ log c ++ b ∷ bs =
        ap (λ xs. log c ++ xs) (take-append-drop chunk_size (b ∷ bs)) in
      elim (Result-cases (t.send chunk c).0) [
        | inr (why, failed) ↦
            let clash : none ≡ some why = sym h ∙ flush_err t fuel b bs c why failed in absurd cc
        | inl (zero, sent) ↦
            let clash : none ≡ some no_connection = sym h ∙ flush_zero t fuel b bs c sent in
            absurd cc
        | inl (suc n, sent) ↦ elim (Bool-cases (ltb (suc n) (length chunk))) [
          | inl part ↦
              ap (delivered log) (flush_part t fuel b bs c n sent part)
              ∙ log-part chunk rest c (suc n) sent
              ∙ whole
          | inr all ↦
              let step = flush_whole t fuel b bs c n sent all in
              ap (delivered log) step
              ∙ flush_from-delivered fuel rest (t.send chunk c).1 (sym (ap (λ f. f.error) step) ∙ h)
              ∙ log-whole chunk rest c (suc n) sent all
              ∙ whole
        ]
      ]

  -- On a transport that takes in a prefix of what it is given, whatever its length, a flush that
  -- reports no error has moved a prefix of the buffer to the connection, in order, and kept the rest:
  -- no byte is lost or repeated.
  pub flush_send_buf-delivered :
      (e : Engine) (c : C)
      → (flush_send_buf t e c).error ≡ none
      → delivered log (flush_send_buf t e c) ≡ log c ++ e.send_buf
  unfolding flush_send_buf
  flush_send_buf-delivered e c h = flush_from-delivered (length e.send_buf) e.send_buf c h

-- A transport that takes in all it is given.
abbrev pub TakesAll : {C : Type 0} → Transport C → Type 0
TakesAll {C} t = (chunk : List ℕ) (c : C) → (t.send chunk c).0 ≡ ok (length chunk)

flush_from-left :
    {C : Type 0} (t : Transport C)
    → TakesAll t
    → (fuel : ℕ) (buf : List ℕ) (c : C) → length buf ≤ fuel
    → ((flush_from t fuel buf c).error ≡ none) × ((flush_from t fuel buf c).left ≡ [])
flush_from-left t all zero [] c h = unfold flush_from in (refl, refl)
flush_from-left t all zero (b ∷ bs) c h = absurd (omega (arith, h))
flush_from-left t all (suc fuel) [] c h = unfold flush_from in (refl, refl)
flush_from-left t all (suc fuel) (b ∷ bs) c h =
    let step =
      flush_whole t fuel b bs c (length (take 511 bs)) (all (take chunk_size (b ∷ bs)) c)
        (ground arith) in
    let rest =
      flush_from-left t all fuel (drop chunk_size (b ∷ bs)) (t.send (take chunk_size (b ∷ bs)) c).1
        (omega (arith, h, length-drop 511 bs)) in
    rw step rest

-- On a transport that takes in all it is given, one flush empties the buffer without an error.
pub flush_send_buf-TakesAll :
    {C : Type 0} (t : Transport C)
    → TakesAll t
    → (e : Engine) (c : C)
    → ((flush_send_buf t e c).error ≡ none) × ((flush_send_buf t e c).left ≡ [])
unfolding flush_send_buf
flush_send_buf-TakesAll t all e c =
    flush_from-left t all (length e.send_buf) e.send_buf c (omega arith)
