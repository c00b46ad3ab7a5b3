-- ===== src/File/Chunks/Cover.antt =====
-- The chunks of a file lie one behind the other and cover it.
use native.Mathlib.Nat.{div-add-mod, mod-lt}
use tcpclient.Base.{
  ◌==◌, if◌then◌else◌, ℕ, ◌+◌, ◌-◌, ◌*◌, ◌/◌, ◌%◌, ◌^◌, ◌≤◌, ◌<◌, min, ◌≡◌, not, none, some, arith,
  dec_lt,
}
use tcpclient.File.Chunks.{file_chunk_count, file_chunk_plan}

next_multiple : (i q c : ℕ) → i < q → i * c + c ≤ c * q
next_multiple i q c h = grind arith

-- With the file written as `q` full chunks and `r` bytes.
rounded-le : (q r c i : ℕ) → 0 < c → c * q + r ≤ i * c → q + (if not (r == 0) then 1 else 0) ≤ i
rounded-le q r c i p h = elim (dec_lt i q) [
  | yes below ↦ absurd (omega (arith, next_multiple i q c below))
  | no above ↦ elim (dec_lt q i) [
    | yes less ↦ ground arith
    | no more ↦ let e : i ≡ q = omega arith in rw e (ground (arith, rw e at h))
  ]
]

-- The count is the quotient rounded up.
pub chunk_count-le_of :
    (size chunk_size index : ℕ)
    → 0 < chunk_size
    → size ≤ index * chunk_size
    → file_chunk_count size chunk_size ≤ index
unfolding file_chunk_count
chunk_count-le_of size chunk_size index h k = ground (
  arith,
  div-add-mod size chunk_size,
  rounded-le (size / chunk_size) (size % chunk_size) chunk_size index h,
)

lt-rounded :
    (q r c i : ℕ) → 0 < c → r < c → i * c < c * q + r → i < q + (if not (r == 0) then 1 else 0)
lt-rounded q r c i p h k = elim (dec_lt q i) [
  | yes less ↦ absurd (omega (arith, next_multiple q i c less))
  | no more ↦ elim (dec_lt i q) [
    | yes below ↦ ground arith
    | no above ↦ let e : i ≡ q = omega arith in rw e (ground (arith, rw e at k))
  ]
]

pub lt-chunk_count_of :
    (size chunk_size index : ℕ)
    → 0 < chunk_size
    → index * chunk_size < size
    → index < file_chunk_count size chunk_size
unfolding file_chunk_count
lt-chunk_count_of size chunk_size index h k = ground (
  arith,
  div-add-mod size chunk_size,
  mod-lt size h,
  lt-rounded (size / chunk_size) (size % chunk_size) chunk_size index h,
)

-- The bytes from `offset` on, but a chunk at most.
abbrev pub chunk_len : ℕ → ℕ → ℕ → ℕ
chunk_len size chunk_size offset = min chunk_size (size - offset)

-- For a chunk size that is not 0 and a file size that fits 64 bits: at an index whose offset lies in
-- the file there is a plan, the chunk at that multiple of the chunk size, as long as the rest of the
-- file but a chunk at most; at any later index there is none.
pub chunk_plan_lem :
    (size chunk_size index : ℕ)
    → 0 < chunk_size
    → size < 2 ^ 64
    → (index * chunk_size < size
        → file_chunk_plan size chunk_size index
          ≡ some (index * chunk_size, chunk_len size chunk_size (index * chunk_size)))
      × (size ≤ index * chunk_size → file_chunk_plan size chunk_size index ≡ none)
unfolding file_chunk_plan
chunk_plan_lem size chunk_size index h k = (
  λ lt. ground (arith, lt-chunk_count_of size chunk_size index h lt),
  λ le. ground (arith, chunk_count-le_of size chunk_size index h le),
)
