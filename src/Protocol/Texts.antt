-- ===== src/Protocol/Texts.antt =====
-- What the builders put on the wire, read back by the parser and by the readers of C strings.
use tcpclient.Utils.{proto_max_payload}
use tcpclient.Base.{
  length, take, length-append, length-take, take-length, Bytes, ℕ, ◌+◌, ◌%◌, ◌^◌, ◌≤◌, ◌<◌, ◌≡◌,
  some, [], ◌∷◌, ◌++◌, append-nil, arith,
}
use tcpclient.Protocol.{protocol_build_frame, protocol_build_text1, build_inline}
use tcpclient.Protocol.Parsing.{whole_frame}

-- The three builders' payloads: every part ends with its NUL.
abbrev pub text1_payload : Bytes → Bytes
text1_payload a = a ++ (0 ∷ [])

abbrev pub text2_payload : Bytes → Bytes → Bytes
text2_payload a b = a ++ (0 ∷ (b ++ (0 ∷ [])))

abbrev pub text3_payload : Bytes → Bytes → Bytes → Bytes
text3_payload a b c = a ++ (0 ∷ (b ++ (0 ∷ (c ++ (0 ∷ [])))))

take-all : (s : Bytes) (n : ℕ) → n ≡ length s → take n s ≡ s
take-all s n h = rw append-nil at (take-length s [] n h)

pub build_frame-whole :
    (t : ℕ) (body : Bytes) (n room : ℕ)
    → n ≡ length body
    → 5 + n ≤ room
    → protocol_build_frame t body n room ≡ some (whole_frame t body [])
unfolding protocol_build_frame whole_frame
build_frame-whole t body n room e h = ground (arith, take-all body n e, append-nil body)

pub build_inline-whole :
    (t : ℕ) (body : Bytes) (room : ℕ)
    → length body < 2 ^ 16
    → 5 + length body ≤ room
    → build_inline t body room ≡ some (whole_frame t body [])
unfolding build_inline whole_frame
build_inline-whole t body room h k = ground (arith, append-nil body)

-- A text of at most 65534 bytes is framed with its NUL.
pub build_text1-whole :
    (t : ℕ) (text : Bytes) (room : ℕ)
    → length text < 65535
    → length text + 6 ≤ room
    → protocol_build_text1 t text room ≡ some (whole_frame t (text1_payload text) [])
unfolding protocol_build_text1 protocol_build_frame whole_frame
build_text1-whole t text room h k = ground (
  arith,
  length-append text (0 ∷ []),
  take-all (text1_payload text) (length text + 1) (omega (arith, length-append text (0 ∷ []))),
  append-nil (text1_payload text),
)

pub build_text1-cut :
    (t : ℕ) (text : Bytes) (room : ℕ)
    → length text ≤ proto_max_payload
    → 2 ^ 16 + 5 ≤ room
    → protocol_build_text1 t text room
      ≡ some (whole_frame t (take ((length text + 1) % 2 ^ 16) (text1_payload text)) [])
unfolding protocol_build_text1 protocol_build_frame whole_frame
build_text1-cut t text room h k = ground (
  arith,
  length-take ((length text + 1) % 2 ^ 16) (text1_payload text),
  length-append text (0 ∷ []),
  append-nil (take ((length text + 1) % 2 ^ 16) (text1_payload text)),
)
