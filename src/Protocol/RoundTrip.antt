-- ===== src/Protocol/RoundTrip.antt =====
-- The builders of src/protocol.c against `protocol_parse`.
use tcpclient.Base.{
  length, take, drop, length-append, length-take, take-length, Bytes, split_nul, c_string, IsText,
  split_nul-append, c_string-append, ℕ, ◌+◌, ◌%◌, ◌^◌, ◌≤◌, ◌<◌, ◌≡◌, refl, Option, none, some, [],
  ◌∷◌, ◌++◌, append_assoc, arith,
}
use tcpclient.Utils.{
  proto_max_payload, utils_read_u32_be, utils_write_u32_be, utils_read_u64_be, utils_write_u64_be,
}
use tcpclient.Protocol.{
  protocol_build_text1, protocol_build_text2, protocol_build_text3, protocol_build_tid,
  protocol_build_chunk, protocol_parse, frame,
}
use tcpclient.Protocol.MsgType
use tcpclient.Protocol.Parsing.{
  whole_frame, view_of, parse-whole_frame, whole_frame-append, parse-whole_frame_n,
}
use tcpclient.Protocol.Texts.{
  text1_payload, text2_payload, text3_payload, build_frame-whole, build_inline-whole,
  build_text1-whole, build_text1-cut,
}

-- The bytes `built` are one frame of type `t`, whatever follows, and the payload satisfies `P`.
abbrev pub Carries : Option Bytes → ℕ → ℕ → (Bytes → Type 0) → Type 0
Carries none t n P = ⊥
Carries (some built) t n P =
    (rest : Bytes)
    → (v : Bytes) × (protocol_parse (built ++ rest) ≡ frame t (some v) n (5 + n)) × P v

carries_frame :
    (t : ℕ) (x : ℕ) (body : Bytes) (P : Bytes → Type 0)
    → length (x ∷ body) < 2 ^ 16
    → ((rest : Bytes) → P ((x ∷ body) ++ rest))
    → Carries (some (whole_frame t (x ∷ body) [])) t (length (x ∷ body)) P
carries_frame t x body P h k rest = (
  (x ∷ body) ++ rest,
  rw whole_frame-append (ground (arith, parse-whole_frame t (x ∷ body) rest h)),
  k rest,
)

carries_nonempty :
    (t : ℕ) (body : Bytes) (P : Bytes → Type 0)
    → 0 < length body
    → length body < 2 ^ 16
    → ((rest : Bytes) → P (body ++ rest))
    → Carries (some (whole_frame t body [])) t (length body) P
carries_nonempty t [] P p h k = elim p [ ]
carries_nonempty t (x ∷ body) P p h k = carries_frame t x body P h k

-- A text of at most 65534 bytes with no NUL, in a buffer with room for it, is framed so that the
-- receiver parses one frame of the given type and reads the same text, whatever follows it.
parse-build_text1 :
    (t : ℕ) (text : Bytes) (room : ℕ)
    → IsText text
    → length text < 65535
    → length text + 6 ≤ room
    → Carries (protocol_build_text1 t text room) t (length text + 1) (λ v. c_string v ≡ some text)
parse-build_text1 t text room s h k =
    let n : length (text1_payload text) ≡ length text + 1 = length-append text (0 ∷ []) in
    rw (build_text1-whole t text room h k, ← n)
      (carries_nonempty t (text1_payload text) _ (omega arith) (omega arith)
        (λ rest. rw append_assoc (c_string-append text rest s)))

-- Two texts with no NUL, together at most 65533 bytes and with room in the buffer, are framed so that
-- the receiver parses one frame of the given type and reads the two as consecutive C strings.
parse-build_text2 :
    (t : ℕ) (a b : Bytes) (room : ℕ)
    → IsText a
    → IsText b
    → length a + length b + 2 < 2 ^ 16
    → length a + length b + 7 ≤ room
    → Carries
        (protocol_build_text2 t a b room)
        t
        (length a + length b + 2)
        (λ v. (w : Bytes) × (split_nul v ≡ some (a, w)) × (c_string w ≡ some b))
unfolding protocol_build_text2
parse-build_text2 t a b room sa sb h k =
    let n : length (text2_payload a b) ≡ length a + length b + 2 =
      omega (arith, length-append a (0 ∷ (b ++ (0 ∷ []))), length-append b (0 ∷ [])) in
    rw (build_inline-whole t (text2_payload a b) room (omega arith) (omega arith), ← n)
      (carries_nonempty t (text2_payload a b) _ (omega arith) (omega arith) (λ rest. (
        b ++ (0 ∷ rest),
        simp append_assoc (split_nul-append a (b ++ (0 ∷ rest)) sa),
        c_string-append b rest sb,
      )))

-- Three texts with no NUL, together at most 65532 bytes and with room in the buffer, are framed so
-- that the receiver parses one frame and reads the three as consecutive C strings.
pub parse-build_text3 :
    (t : ℕ) (a b c : Bytes) (room : ℕ)
    → IsText a
    → IsText b
    → IsText c
    → length a + length b + length c + 3 < 2 ^ 16
    → length a + length b + length c + 8 ≤ room
    → Carries (protocol_build_text3 t a b c room) t (length a + length b + length c + 3) (λ v.
      (w : Bytes) × (x : Bytes) × (split_nul v ≡ some (a, w))
      × (split_nul w ≡ some (b, x))
      × (c_string x ≡ some c))
unfolding protocol_build_text3
parse-build_text3 t a b c room sa sb sc h k =
    let n : length (text3_payload a b c) ≡ length a + length b + length c + 3 = omega (
      arith,
      length-append a (0 ∷ (b ++ (0 ∷ (c ++ (0 ∷ []))))),
      length-append b (0 ∷ (c ++ (0 ∷ []))),
      length-append c (0 ∷ []),
    ) in
    rw (build_inline-whole t (text3_payload a b c) room (omega arith) (omega arith), ← n)
      (carries_nonempty t (text3_payload a b c) _ (omega arith) (omega arith) (λ rest. (
        b ++ (0 ∷ (c ++ (0 ∷ rest))),
        c ++ (0 ∷ rest),
        simp append_assoc (split_nul-append a (b ++ (0 ∷ (c ++ (0 ∷ rest)))) sa),
        split_nul-append b (c ++ (0 ∷ rest)) sb,
        c_string-append c rest sc,
      )))

-- In a buffer of nine bytes or more, a control frame is parsed as one frame of four bytes that read
-- back as its 32-bit transfer id.
pub parse-build_tid :
    (t tid room : ℕ)
    → tid < 2 ^ 32
    → 9 ≤ room
    → Carries (protocol_build_tid t tid room) t 4 (λ v. utils_read_u32_be v ≡ tid)
unfolding protocol_build_tid utils_write_u32_be utils_read_u32_be
parse-build_tid t tid room h k =
    rw (build_frame-whole t (utils_write_u32_be tid) 4 room refl (omega arith)) (
      carries_nonempty t (utils_write_u32_be tid) _ (omega arith) (omega arith)
        (λ rest. omega arith))

abbrev chunk_payload : ℕ → ℕ → Bytes → Bytes
chunk_payload tid offset bytes = utils_write_u32_be tid ++ (utils_write_u64_be offset ++ bytes)

length-chunk_payload :
    (tid offset : ℕ) (bytes : Bytes) → length (chunk_payload tid offset bytes) ≡ 12 + length bytes
unfolding utils_write_u32_be utils_write_u64_be
length-chunk_payload tid offset bytes = omega arith

chunk_payload_fields :
    (tid offset : ℕ) (bytes rest : Bytes)
    → tid < 2 ^ 32
    → offset < 2 ^ 64
    → let v = chunk_payload tid offset bytes ++ rest in
      (utils_read_u32_be v ≡ tid)
      × (utils_read_u64_be (drop 4 v) ≡ offset)
      × (take (length bytes) (drop 12 v) ≡ bytes)
unfolding utils_write_u32_be utils_write_u64_be utils_read_u32_be utils_read_u64_be
chunk_payload_fields tid offset bytes rest h k =
    (omega arith, omega arith, take-length bytes rest (length bytes) refl)

-- A chunk frame of at most 65523 bytes of data, with room in the buffer, is parsed as one CHUNK frame
-- from which the 32-bit transfer id, the 64-bit offset and the data are read back.
pub parse-build_chunk :
    (tid offset : ℕ) (bytes : Bytes) (room : ℕ)
    → tid < 2 ^ 32
    → offset < 2 ^ 64
    → length bytes + 12 < 2 ^ 16
    → length bytes + 17 ≤ room
    → Carries
        (protocol_build_chunk tid offset bytes room)
        MsgType.file_chunk
        (12 + length bytes)
        (λ v.
          (utils_read_u32_be v ≡ tid)
          × (utils_read_u64_be (drop 4 v) ≡ offset)
          × (take (length bytes) (drop 12 v) ≡ bytes))
unfolding protocol_build_chunk
parse-build_chunk tid offset bytes room ht ho h k =
    let n = length-chunk_payload tid offset bytes in
    rw
      (
        build_inline-whole MsgType.file_chunk (chunk_payload tid offset bytes) room (omega arith)
            (omega arith),
        ← n,
      )
      (carries_nonempty MsgType.file_chunk (chunk_payload tid offset bytes) _ (omega arith)
        (omega arith) (λ rest. chunk_payload_fields tid offset bytes rest ht ho))

-- For every text of at most 1 MB, in a buffer of 65541 bytes or more, `protocol_build_text1` returns
-- a frame, and its receiver parses a payload of the text's length with its NUL, modulo 65536.
pub parse-build_text1_wraps :
    (t : ℕ) (text : Bytes) (room : ℕ)
    → length text ≤ proto_max_payload
    → 2 ^ 16 + 5 ≤ room
    → (v : Option Bytes) × (b : Bytes) × (protocol_build_text1 t text room ≡ some b)
      × (protocol_parse b ≡ frame t v ((length text + 1) % 2 ^ 16) (5 + (length text + 1) % 2 ^ 16))
parse-build_text1_wraps t text room h k =
    let n : ℕ = (length text + 1) % 2 ^ 16 in
    let body : Bytes = take n (text1_payload text) in
    let len : n ≡ length body =
      omega (arith, length-take n (text1_payload text), length-append text (0 ∷ [])) in
    (
      view_of body [],
      whole_frame t body [],
      build_text1-cut t text room h k,
      parse-whole_frame_n t body [] n len (omega arith),
    )
