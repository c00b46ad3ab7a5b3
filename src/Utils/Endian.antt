-- ===== src/Utils/Endian.antt =====
-- A big-endian field reads back as it was written, whatever follows it.
use tcpclient.Base.{Bytes, ℕ, ◌%◌, ◌^◌, ◌<◌, ◌≡◌, [], ◌∷◌, ◌++◌, arith}
use tcpclient.Utils.{
  utils_read_u16_be, utils_write_u16_be, utils_read_u32_be, utils_write_u32_be, utils_read_u64_be,
  utils_write_u64_be,
}

pub read-write_u16 :
    (v : ℕ) (rest : Bytes) → utils_read_u16_be (utils_write_u16_be v ++ rest) ≡ v % 2 ^ 16
unfolding utils_read_u16_be utils_write_u16_be
read-write_u16 v rest = omega arith

pub read-write_u32 :
    (v : ℕ) (rest : Bytes) → utils_read_u32_be (utils_write_u32_be v ++ rest) ≡ v % 2 ^ 32
unfolding utils_read_u32_be utils_write_u32_be
read-write_u32 v rest = omega arith

pub read-write_u64 :
    (v : ℕ) (rest : Bytes) → utils_read_u64_be (utils_write_u64_be v ++ rest) ≡ v % 2 ^ 64
unfolding utils_read_u64_be utils_write_u64_be
read-write_u64 v rest = omega arith

pub write_u16-read :
    (a b : ℕ) (rest : Bytes)
    → a < 256
    → b < 256
    → utils_write_u16_be (utils_read_u16_be (a ∷ b ∷ rest)) ≡ a ∷ b ∷ []
unfolding utils_read_u16_be utils_write_u16_be
write_u16-read a b rest h k = ground arith
