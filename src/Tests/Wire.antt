-- ===== src/Tests/Wire.antt =====
-- The frames at concrete inputs.
use tcpclient.Base.{
  length, take, drop, Bytes, codes, split_nul, c_string, ◌+◌, ◌%◌, ◌^◌, ◌≤◌, ◌≡◌, refl, Option,
  some, [], ◌∷◌, ◌++◌, arith,
}
use tcpclient.Utils.{utils_read_u16_be, utils_write_u16_be, utils_read_u32_be, utils_read_u64_be}
use tcpclient.Protocol.{
  protocol_build_text1, protocol_build_text3, protocol_build_tid, protocol_build_chunk,
  protocol_parse, need_more, frame,
}
use tcpclient.Protocol.MsgType
use tcpclient.Protocol.Parsing.{whole_frame, extend, parse_frame-append, parse_front}
use tcpclient.Protocol.RoundTrip.{
  Carries, parse-build_text3, parse-build_tid, parse-build_chunk, parse-build_text1_wraps,
}

parse_front_example : protocol_parse (0xCA ∷ 0xFE ∷ 2 ∷ 0 ∷ 2 ∷ b'h' ∷ []) ≡ need_more
unfolding whole_frame utils_write_u16_be
parse_front_example =
    parse_front 2 (codes "hi") (0xCA ∷ 0xFE ∷ 2 ∷ 0 ∷ 2 ∷ b'h' ∷ []) [] b'i' (omega arith) refl

abbrev hi_frame : Bytes
hi_frame = 0xCA ∷ 0xFE ∷ 2 ∷ 0 ∷ 2 ∷ b'h' ∷ b'i' ∷ []

parse_frame-append_example :
    (protocol_parse (hi_frame ++ codes "more")
      ≡ extend (frame 2 (some (codes "hi")) 2 7) (codes "more"))
    × (7 ≡ 5 + 2)
    × (7 ≤ length hi_frame)
unfolding protocol_parse tcpclient.Utils.utils_read_u16_be
parse_frame-append_example =
    parse_frame-append hi_frame (codes "more") 2 (some (codes "hi")) 2 7 refl

parse-build_text3_example :
    Carries
      (protocol_build_text3 9 (codes "bob") (codes "a") (codes "5") 64)
      9
      (length (codes "bob") + length (codes "a") + length (codes "5") + 3)
      (λ v.
        (w : Bytes) × (x : Bytes) × (split_nul v ≡ some (codes "bob", w))
        × (split_nul w ≡ some (codes "a", x))
        × (c_string x ≡ some (codes "5")))
parse-build_text3_example =
    parse-build_text3 9 (codes "bob") (codes "a") (codes "5") 64 (ground arith) (ground arith)
      (ground arith) (omega arith) (omega arith)

parse-build_tid_example :
    Carries (protocol_build_tid 10 70000 9) 10 4 (λ v. utils_read_u32_be v ≡ 70000)
parse-build_tid_example = parse-build_tid 10 70000 9 (omega arith) (omega arith)

parse-build_chunk_example :
    Carries
      (protocol_build_chunk 7 65500 (codes "abc") 100)
      MsgType.file_chunk
      (12 + length (codes "abc"))
      (λ v.
        (utils_read_u32_be v ≡ 7)
        × (utils_read_u64_be (drop 4 v) ≡ 65500)
        × (take (length (codes "abc")) (drop 12 v) ≡ codes "abc"))
parse-build_chunk_example =
    parse-build_chunk 7 65500 (codes "abc") 100 (omega arith) (omega arith) (omega arith)
      (omega arith)

parse-build_text1_wraps_example :
    (v : Option Bytes) × (b : Bytes) × (protocol_build_text1 2 (codes "hi") 65541 ≡ some b)
    × (protocol_parse b
        ≡ frame 2 v ((length (codes "hi") + 1) % 2 ^ 16) (5 + (length (codes "hi") + 1) % 2 ^ 16))
parse-build_text1_wraps_example =
    parse-build_text1_wraps 2 (codes "hi") 65541 (omega arith) (omega arith)
