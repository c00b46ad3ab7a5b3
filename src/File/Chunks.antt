-- ===== src/File/Chunks.antt =====
-- `file_chunk_count` and `file_chunk_plan`: how a file is cut into chunks.
pub mod Cover
use tcpclient.Base.{
  leb, ◌==◌, if◌then◌else◌, ℕ, ◌+◌, ◌-◌, ◌*◌, ◌/◌, ◌%◌, ◌^◌, not, Option, none, some,
}

abbrev pub chunk_data_max : ℕ
chunk_data_max = 65500

unfoldable pub file_chunk_count : ℕ → ℕ → ℕ
file_chunk_count size chunk_size =
    if size == 0 then 0 else size / chunk_size + (if not (size % chunk_size == 0) then 1 else 0)

-- The offset and the length of a chunk; the product is taken in 64 bits.
unfoldable pub file_chunk_plan : ℕ → ℕ → ℕ → Option (ℕ × ℕ)
unfolding file_chunk_count
file_chunk_plan size chunk_size index =
    let offset = index * chunk_size % 2 ^ 64 in
    let remain = size - offset in
    if leb (file_chunk_count size chunk_size) index
    then none
    else some (offset, if leb chunk_size remain then chunk_size else remain)
