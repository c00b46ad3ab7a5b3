-- ===== src/Protocol.antt =====
-- src/protocol.c and include/protocol.h: frames. A frame is 0xCAFE, the type, the length of the
-- payload (16 bits) and the payload, all big-endian. A builder returns the bytes that it left in
-- the output buffer (`none` is -1). A NULL payload is the empty list: the program passes NULL only
-- with the length 0.
pub mod MsgType
pub mod Parsing
pub mod Texts
pub mod RoundTrip
use tcpclient.Base.{
  ltb, ◌==◌, if◌then◌else◌, length, get_or, take, drop, Bytes, ℕ, ◌+◌, ◌%◌, ◌^◌, Bool, false, not,
  ◌||◌, Option, none, some, [], ◌∷◌, ◌++◌,
}
use tcpclient.Utils.{
  proto_magic, proto_header_size, proto_max_payload, utils_read_u16_be, utils_write_u16_be,
  utils_write_u32_be, utils_write_u64_be,
}

abbrev pub err_no_such_user : ℕ
err_no_such_user = 200

abbrev pub err_transfer_state : ℕ
err_transfer_state = 300

pub header : ℕ → ℕ → Bytes
header msg_type len = utils_write_u16_be proto_magic ++ (msg_type ∷ utils_write_u16_be len)

unfoldable pub protocol_build_frame : ℕ → Bytes → ℕ → ℕ → Option Bytes
unfolding header
protocol_build_frame msg_type payload payload_len out_cap =
    if ltb out_cap (proto_header_size + payload_len)
    then none
    else some (header msg_type payload_len ++ take payload_len payload)

-- The text's NUL belongs to the payload; its length is cut to 16 bits.
unfoldable pub protocol_build_text1 : ℕ → Bytes → ℕ → Option Bytes
unfolding protocol_build_frame
protocol_build_text1 msg_type text out_cap =
    if ltb proto_max_payload (length text)
    then none
    else protocol_build_frame msg_type (text ++ (0 ∷ [])) ((length text + 1) % 2 ^ 16) out_cap

-- What `text2`, `text3`, `chunk` and `error` share: both bounds on the length of the payload, then
-- the header and the whole payload.
pub build_inline : ℕ → Bytes → ℕ → Option Bytes
unfolding header
build_inline msg_type payload out_cap =
    if ltb proto_max_payload (length payload)
    then none
    else if ltb out_cap (length payload + proto_header_size)
    then none
    else some (header msg_type (length payload % 2 ^ 16) ++ payload)

unfoldable pub protocol_build_text2 : ℕ → Bytes → Bytes → ℕ → Option Bytes
unfolding build_inline
protocol_build_text2 msg_type part1 part2 out_cap =
    build_inline msg_type (part1 ++ (0 ∷ (part2 ++ (0 ∷ [])))) out_cap

unfoldable pub protocol_build_text3 : ℕ → Bytes → Bytes → Bytes → ℕ → Option Bytes
unfolding build_inline
protocol_build_text3 msg_type part1 part2 part3 out_cap =
    build_inline msg_type (part1 ++ (0 ∷ (part2 ++ (0 ∷ (part3 ++ (0 ∷ [])))))) out_cap

unfoldable pub protocol_build_tid : ℕ → ℕ → ℕ → Option Bytes
unfolding protocol_build_frame
protocol_build_tid msg_type tid out_cap =
    protocol_build_frame msg_type (utils_write_u32_be tid) 4 out_cap

unfoldable pub protocol_build_chunk : ℕ → ℕ → Bytes → ℕ → Option Bytes
unfolding build_inline
protocol_build_chunk tid offset bytes out_cap =
    build_inline MsgType.file_chunk (utils_write_u32_be tid ++ (utils_write_u64_be offset ++ bytes))
      out_cap

unfoldable pub protocol_build_error : ℕ → Bytes → ℕ → Option Bytes
unfolding build_inline
protocol_build_error code msg out_cap =
    build_inline MsgType.error (utils_write_u16_be code ++ (0 ∷ (msg ++ (0 ∷ [])))) out_cap

unfoldable pub protocol_build_raw : ℕ → Bytes → ℕ → Option Bytes
unfolding protocol_build_frame
protocol_build_raw msg_type bytes out_cap =
    if ltb proto_max_payload (length bytes)
    then none
    else protocol_build_frame msg_type bytes (length bytes % 2 ^ 16) out_cap

-- `frame type payload plen consumed`. The payload is a pointer into the buffer: `none` is NULL, and
-- `some view` shows the bytes of the buffer from there on, those behind the payload too.
pub data Parsed : Type 0 where
  need_more bad : Parsed
  frame : ℕ → Option Bytes → ℕ → ℕ → Parsed

-- The scan for another magic number. Its result does not matter to the caller.
pub scan_magic : Bytes → Bool
scan_magic [] = false
scan_magic (x ∷ []) = false
scan_magic (x ∷ y ∷ rest) = utils_read_u16_be (x ∷ y ∷ rest) == proto_magic || scan_magic (y ∷ rest)

-- A buffer that starts with the magic number and holds a header.
pub parse_body : Bytes → Parsed
parse_body buf =
    let plen = utils_read_u16_be (drop 3 buf) in
    if ltb (length buf) (proto_header_size + plen)
    then need_more
    else frame (get_or buf 2 0) (if ltb 0 plen then some (drop proto_header_size buf) else none)
        plen (proto_header_size + plen)

unfoldable pub protocol_parse : Bytes → Parsed
unfolding parse_body scan_magic
protocol_parse buf =
    if ltb (length buf) proto_header_size
    then need_more
    else if not (utils_read_u16_be buf == proto_magic)
    then (if scan_magic (drop 1 buf) then bad else bad)
    else parse_body buf
