-- ===== src/Transport/Frames.antt =====
-- Frames of a secure connection: WriteMessage and ReadMessage.
use gleipnir.Prelude.{
  ℕ, zero, suc, ◌+◌, ◌<◌, ◌≤◌, ◌≡◌, refl, sym, subst, ◌∙◌, inl, inr, Bool-cases, true, false, Bytes,
  none, some, [], ◌∷◌, ◌++◌, length, ltb, leb, arith, length-append, if◌then◌else◌,
}
use mathlib.Core.List.{append_assoc, append-nil}
use gleipnir.Prelude.Words.{be_bytes}
use gleipnir.Prelude.Results.{ok, err, ◌>>=◌}
use gleipnir.Transport.{
  Ciphers, frame_too_large, slice_out_of_range, max_frame_size, nonce_size, read_full, be_value,
  write_message, open_frame, read_message,
}

pub read_full-append :
    (n : ℕ) (as' bs : Bytes) → length as' ≡ n → read_full n (as' ++ bs) ≡ some (as', bs)
unfolding read_full
read_full-append zero [] bs h = refl
read_full-append zero (a ∷ as') bs h = absurd (omega arith)
read_full-append (suc n) [] bs h = absurd (omega arith)
read_full-append (suc n) (a ∷ as') bs h = rw (read_full-append n as' bs (omega arith)) refl

pub read_full-short : (n : ℕ) (bs : Bytes) → length bs < n → read_full n bs ≡ none
unfolding read_full
read_full-short zero bs h = absurd (omega arith)
read_full-short (suc n) [] h = refl
read_full-short (suc n) (b ∷ bs) h = rw (read_full-short n bs (omega arith)) refl

pub read_full-all : (n : ℕ) (bs : Bytes) → length bs ≡ n → read_full n bs ≡ some (bs, [])
read_full-all n bs h =
    subst (λ x. read_full n x ≡ some (bs, [])) (append-nil bs) (read_full-append n bs [] h)

pub length-be_bytes : (x : ℕ) → length (be_bytes 4 x) ≡ 4
unfolding be_bytes
length-be_bytes x = refl

pub be_value-be_bytes : (x : ℕ) → x < 4294967296 → be_value 0 (be_bytes 4 x) ≡ x
unfolding be_bytes be_value
be_value-be_bytes x h = omega arith

module _ (lib : Ciphers) (key : Bytes) where
  -- A frame behind its length: it is opened, where the length is within the limit.
  read_message-frame :
      (h body rest : Bytes)
      → length h ≡ 4
      → be_value 0 h ≡ length body
      → ltb max_frame_size (length body) ≡ false
      → read_message lib key (h ++ (body ++ rest)) ≡ (open_frame lib key body >>= λ m. ok (m, rest))
  unfolding read_message
  read_message-frame h body rest four value small =
      rw
        (
          read_full-append 4 h (body ++ rest) four,
          value,
          small,
          read_full-append (length body) body rest refl,
        )
        refl

  read_message-over :
      (h rest : Bytes)
      → length h ≡ 4
      → ltb max_frame_size (be_value 0 h) ≡ true
      → read_message lib key (h ++ rest) ≡ err frame_too_large
  unfolding read_message
  read_message-over h rest four over = rw (read_full-append 4 h rest four, over) refl

  open_frame-sealed :
      (nonce ct message : Bytes)
      → length nonce ≡ nonce_size
      → lib.opened key nonce ct ≡ some message
      → open_frame lib key (nonce ++ ct) ≡ ok message
  unfolding open_frame
  open_frame-sealed nonce ct message n opens =
      rw (open_frame, read_full-append nonce_size nonce ct n, opens) refl

  -- What WriteMessage writes.
  write_message_lem :
      (nonce bytes : Bytes)
      → length bytes ≤ 1048576
      → write_message lib key (some nonce) bytes
        ≡ ok (
            be_bytes 4 (nonce_size + length (lib.seal key nonce bytes))
            ++ (nonce ++ lib.seal key nonce bytes))
  unfolding write_message
  write_message_lem nonce bytes h = ground arith

  -- ChaCha20-Poly1305 under the key: what is sealed is opened, and is 16 bytes longer.
  pub record Seals : Type 0 where
    pub opens :
        (nonce bytes : Bytes)
        → length nonce ≡ nonce_size
        → lib.opened key nonce (lib.seal key nonce bytes) ≡ some bytes
    pub longer :
        (nonce bytes : Bytes)
        → length nonce ≡ nonce_size
        → length (lib.seal key nonce bytes) ≡ length bytes + 16

  -- A message of at most 1048560 bytes that WriteMessage writes is what ReadMessage reads, and what
  -- follows is left. One that is longer, up to the 1048576 bytes that WriteMessage accepts, is
  -- written too, and ReadMessage refuses it as too large.
  pub write_message-read_message :
      (nonce bytes rest : Bytes)
      → Seals
      → length nonce ≡ nonce_size
      → length bytes ≤ 1048576
      → (frame : Bytes) × (write_message lib key (some nonce) bytes ≡ ok frame)
        × (read_message lib key (frame ++ rest)
            ≡ (if leb (length bytes) 1048560 then ok (bytes, rest) else err frame_too_large))
  write_message-read_message nonce bytes rest s n h =
      let ct = lib.seal key nonce bytes in
      let body = nonce ++ ct in
      let header = be_bytes 4 (nonce_size + length ct) in
      let long : length body ≡ nonce_size + length ct = omega (arith, n, length-append nonce ct) in
      let whole : length ct ≡ length bytes + 16 = s.longer nonce bytes n in
      let value : be_value 0 header ≡ length body =
        be_value-be_bytes (nonce_size + length ct) (omega (arith, whole)) ∙ sym long in
      let four = length-be_bytes (nonce_size + length ct) in
      (
        header ++ body,
        write_message_lem nonce bytes h,
        rw (append_assoc header body rest) (elim (Bool-cases (leb (length bytes) 1048560)) [
          | inl fits ↦
              let small : ltb max_frame_size (length body) ≡ false = ground (arith, long, whole) in
              rw
                (
                  fits,
                  read_message-frame header body rest four value small,
                  open_frame-sealed nonce ct bytes n (s.opens nonce bytes n),
                )
                refl
          | inr over ↦
              let large : ltb max_frame_size (be_value 0 header) ≡ true =
                ground (arith, value, long, whole) in
              rw (over, read_message-over header (body ++ rest) four large) refl
        ]),
      )

  -- Whoever writes fewer bytes than a nonce has behind their length, crashes the node that reads
  -- them, without knowing the key.
  pub read_message-short_panics :
      (body rest : Bytes)
      → length body < nonce_size
      → read_message lib key (be_bytes 4 (length body) ++ (body ++ rest)) ≡ err slice_out_of_range
  unfolding open_frame
  read_message-short_panics body rest short =
      let small : ltb max_frame_size (length body) ≡ false = ground arith in
      let value = be_value-be_bytes (length body) (omega (arith, short)) in
      rw
        (
          read_message-frame (be_bytes 4 (length body)) body rest (length-be_bytes (length body))
              value small,
          open_frame,
          read_full-short nonce_size body short,
        )
        refl
