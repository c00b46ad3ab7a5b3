-- ===== src/File/Spans.antt =====
-- The duplicate map of a reception: `recv_bitmap_index`, `file_recv_span_check` and
-- `file_recv_span_mark`. Bit i of the map stands for chunk i.
pub mod Bits
pub mod Marks
use Prim.Native.Nat.{bit_and, bit_or}
use tcpclient.Base.{
  ltb, leb, ◌==◌, if◌then◌else◌, get_or, set, Bytes, ℕ, ◌-◌, ◌/◌, ◌%◌, ◌^◌, Bool, false, not, ◌||◌,
  Option, none, some,
}
use tcpclient.File.Chunks.{chunk_data_max}

unfoldable pub recv_bitmap_index : ℕ → ℕ → Option ℕ
recv_bitmap_index bitmap_len offset =
    if not (offset % chunk_data_max == 0)
    then none
    else if leb bitmap_len (offset / chunk_data_max / 8)
    then none
    else some (offset / chunk_data_max / 8)

-- `(uint8_t)(1u << (chunk % 8))`
abbrev pub chunk_bit : ℕ → ℕ
chunk_bit chunk = 2 ^ (chunk % 8) % 256

-- The result 0 is `true`.
unfoldable pub file_recv_span_check : ℕ → Bytes → ℕ → ℕ → ℕ → Bool
unfolding recv_bitmap_index
file_recv_span_check size bitmap bitmap_len offset len =
    if size == 0 || len == 0 || leb size offset
    then false
    else if ltb (size - offset) len || ltb chunk_data_max len
    then false
    else elim (recv_bitmap_index bitmap_len offset) [
      | none ↦ false
      | some idx ↦ bit_and (get_or bitmap idx 0) (chunk_bit (offset / chunk_data_max)) == 0
    ]

-- The map with the bit set, or `none` for -1.
unfoldable pub file_recv_span_mark : Bytes → ℕ → ℕ → Option Bytes
unfolding recv_bitmap_index
file_recv_span_mark bitmap bitmap_len offset = elim (recv_bitmap_index bitmap_len offset) [
  | none ↦ none
  | some idx ↦
      some (set bitmap idx (bit_or (get_or bitmap idx 0) (chunk_bit (offset / chunk_data_max))))
]
