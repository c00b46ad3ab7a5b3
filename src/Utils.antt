-- ===== src/Utils.antt =====
-- src/utils.c and include/utils.h: string helpers, the number parser and big-endian fields.
-- `snprintf` with %u and %llu is `decimal`. Logging (`utils_log`) is output only and left out.
pub mod Endian
pub mod Digits
use mathlib.Core.List.{reverse}
use tcpclient.Base.{
  ltb, ◌==◌, if◌then◌else◌, length, get_or, take, Bytes, ℕ, zero, suc, ◌+◌, ◌-◌, ◌*◌, ◌/◌, ◌%◌, ◌^◌,
  Bool, ◌||◌, Option, none, some, [], ◌∷◌, ◌++◌,
}

abbrev pub max_username_len : ℕ
max_username_len = 32

abbrev pub max_password_len : ℕ
max_password_len = 64

abbrev pub max_group_name_len : ℕ
max_group_name_len = 32

abbrev pub max_filename_len : ℕ
max_filename_len = 256

abbrev pub max_message_len : ℕ
max_message_len = 65535

abbrev pub proto_magic : ℕ
proto_magic = 0xcafe

abbrev pub proto_header_size : ℕ
proto_header_size = 5

abbrev pub proto_max_payload : ℕ
proto_max_payload = 1024 * 1024

abbrev pub uint32_max : ℕ
uint32_max = 2 ^ 32 - 1

abbrev pub uint64_max : ℕ
uint64_max = 2 ^ 64 - 1

-- The new content of `dst` (`none`: untouched) and the return value.
pub utils_strncpy : Bytes → ℕ → Option Bytes × ℕ
utils_strncpy src zero = (none, 0)
utils_strncpy src (suc n) = (some (take n src), length src)

abbrev pub is_newline : ℕ → Bool
is_newline c = c == b'\n' || c == b'\r'

-- The loop of `utils_trim_newline` on the bytes from the last one back.
pub trim_loop : Bytes → Bytes
trim_loop [] = []
trim_loop (c ∷ s) = if is_newline c then trim_loop s else c ∷ s

unfoldable pub utils_trim_newline : Bytes → Bytes
unfolding trim_loop
utils_trim_newline str = reverse (trim_loop (reverse str))

-- The loop of `utils_parse_u64_range`, over the bytes of the range that are left.
unfoldable pub parse_u64_loop : ℕ → Bytes → Option ℕ
parse_u64_loop v [] = some v
parse_u64_loop v (c ∷ s) =
    let rest = parse_u64_loop (v * 10 + (c - b'0')) s in
    if ltb c b'0' || ltb b'9' c
    then none
    else if ltb ((uint64_max - (c - b'0')) / 10) v
    then none
    else rest

unfoldable pub utils_parse_u64_range : Bytes → Option ℕ
unfolding parse_u64_loop
utils_parse_u64_range [] = none
utils_parse_u64_range (c ∷ s) = parse_u64_loop 0 (c ∷ s)

-- The fields do not overlap, so `|` is `+`.
unfoldable pub utils_read_u16_be : Bytes → ℕ
utils_read_u16_be buf = get_or buf 0 0 * 2 ^ 8 + get_or buf 1 0

unfoldable pub utils_write_u16_be : ℕ → Bytes
utils_write_u16_be val = (val / 2 ^ 8 % 256) ∷ (val % 256) ∷ []

unfoldable pub utils_read_u32_be : Bytes → ℕ
utils_read_u32_be buf =
    get_or buf 0 0 * 2 ^ 24 + get_or buf 1 0 * 2 ^ 16 + get_or buf 2 0 * 2 ^ 8 + get_or buf 3 0

unfoldable pub utils_write_u32_be : ℕ → Bytes
utils_write_u32_be val =
    (val / 2 ^ 24 % 256) ∷ (val / 2 ^ 16 % 256) ∷ (val / 2 ^ 8 % 256) ∷ (val % 256) ∷ []

unfoldable pub utils_read_u64_be : Bytes → ℕ
utils_read_u64_be buf =
    get_or buf 0 0 * 2 ^ 56
    + get_or buf 1 0 * 2 ^ 48
    + get_or buf 2 0 * 2 ^ 40
    + get_or buf 3 0 * 2 ^ 32
    + get_or buf 4 0 * 2 ^ 24
    + get_or buf 5 0 * 2 ^ 16
    + get_or buf 6 0 * 2 ^ 8
    + get_or buf 7 0

unfoldable pub utils_write_u64_be : ℕ → Bytes
utils_write_u64_be val =
    (val / 2 ^ 56 % 256)
    ∷ (val / 2 ^ 48 % 256)
    ∷ (val / 2 ^ 40 % 256)
    ∷ (val / 2 ^ 32 % 256)
    ∷ (val / 2 ^ 24 % 256)
    ∷ (val / 2 ^ 16 % 256)
    ∷ (val / 2 ^ 8 % 256)
    ∷ (val % 256)
    ∷ []

-- The decimal digits of a number below 10 ^ fuel.
unfoldable pub digits : ℕ → ℕ → Bytes
digits zero n = []
digits (suc fuel) n =
    let high = digits fuel (n / 10) in
    if ltb n 10 then (n + b'0') ∷ [] else high ++ ((n % 10 + b'0') ∷ [])

-- `%u` and `%llu`: a uint64_t has 20 digits at most.
unfoldable pub decimal : ℕ → Bytes
unfolding digits
decimal n = digits 20 n
