-- ===== src/Raft/Transport/Framing.antt =====
-- What is read of a message that has been sent.
use ds_collaborative_editor.Base.{
  ℕ, ◌%◌, ◌^◌, ◌<◌, ◌∷◌, ◌++◌, Option, some, length, length-append, take-append, drop-append, ltb,
  ◌==◌, false, true, if◌then◌else◌, if_true, if_false, ◌≡◌, refl, sym, ap, ◌∙◌, arith,
}
use ds_collaborative_editor.Base.Text.{Text}
use ds_collaborative_editor.Raft.Memory.{put_uint, uint}
use ds_collaborative_editor.Raft.Transport.{
  Reading, failed, message, too_large, max_payload, read_full, frame, send_message, decode_payload,
  read_payload, read_body, read_header, read_message,
}

-- Four bytes hold a uint32.
uint-put_uint : (n : ℕ) → n < 2 ^ 32 → uint 0 (put_uint 4 n) ≡ n
unfolding put_uint uint
uint-put_uint n h = omega arith

read_full-append : (a b : Text) (n : ℕ) → length a ≡ n → read_full n (a ++ b) ≡ some (a, b)
unfolding read_full
read_full-append a b n h =
    let e = length-append a b in
    let f : ltb (length (a ++ b)) n ≡ false = ground (arith, e, h) in
    if_false _ _ f ∙ rw (sym h) (rw (take-append a b, drop-append a b) refl)

module _ {M : Type 0} (marshal : M → Option Text) (unmarshal : Text → Option M) where
  read_body_lem :
      (t n : ℕ) (size rest : Text)
      → uint 0 size ≡ n
      → read_body marshal unmarshal t (t ∷ size) rest ≡ (
          if ltb max_payload n
          then failed (too_large n)
          else read_payload marshal unmarshal (read_full n rest))
  unfolding read_body
  read_body_lem t n size rest h =
      let e : t == t ≡ true = ground arith in
      if_true _ _ e
      ∙ ap
          (λ k.
            if ltb max_payload k
            then failed (too_large k)
            else read_payload marshal unmarshal (read_full k rest))
          h

  -- The header of a frame is read back.
  read-frame :
      (t : ℕ) (body rest : Text)
      → length body < 2 ^ 32
      → read_message marshal unmarshal t (frame marshal unmarshal t body ++ rest) ≡ (
          if ltb max_payload (length body)
          then failed (too_large (length body))
          else read_payload marshal unmarshal (read_full (length body) (body ++ rest)))
  unfolding read_message read_header frame put_uint
  read-frame t body rest h =
      let k : length body % 2 ^ 32 ≡ length body = omega arith in
      ap (read_header marshal unmarshal t)
        (read_full-append (t ∷ put_uint 4 (length body % 2 ^ 32)) (body ++ rest) 5 refl)
      ∙ read_body_lem t (length body) (put_uint 4 (length body % 2 ^ 32)) (body ++ rest)
          (uint-put_uint (length body % 2 ^ 32) (omega arith) ∙ k)

  -- A message whose JSON has at most 10485760 bytes, and that encoding/json decodes again, is sent,
  -- and whatever follows it on the stream, it is read back and the rest stays; with more bytes, up
  -- to what the header can say, the reader refuses it for its size.
  pub send_message-read_message :
      (t : ℕ) (m : M) (body rest : Text)
      → marshal m ≡ some body
      → unmarshal body ≡ some m
      → length body < 2 ^ 32
      → (bytes : Text) × (send_message marshal unmarshal t m ≡ some bytes)
        × (read_message marshal unmarshal t (bytes ++ rest) ≡ (
            if ltb max_payload (length body)
            then failed (too_large (length body))
            else message m rest))
  unfolding send_message read_payload decode_payload
  send_message-read_message t m body rest g u h = (
    frame marshal unmarshal t body,
    rw (g, send_message) refl,
    read-frame t body rest h
        ∙ ap
            (λ (x : Reading M).
              if ltb max_payload (length body) then failed (too_large (length body)) else x)
            (ap (read_payload marshal unmarshal) (read_full-append body rest (length body) refl)
              ∙ rw (u, read_payload, decode_payload) refl),
  )
