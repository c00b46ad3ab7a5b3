-- ===== src/File/Spans/Marks.antt =====
-- The duplicate map as a set of chunk numbers.
use Prim.Native.Nat.{bit_and, bit_or}
use tcpclient.Base.{
  ◌==◌, length, get_or, set, All, length-set, get_or-set_self, get_or-set_ne, All-get_or, All-set,
  Bytes, IsByte, ℕ, zero, suc, ◌+◌, ◌*◌, ◌/◌, ◌%◌, ◌^◌, ◌≤◌, ◌<◌, ◌≡◌, refl, ◌≢◌, ◌↔◌, Bool, true,
  false, not, ◌||◌, some, arith, ℕ_discrete,
}
use tcpclient.File.Chunks.{chunk_data_max}
use tcpclient.File.Spans.{chunk_bit, file_recv_span_check, file_recv_span_mark}
use tcpclient.File.Spans.Bits.{bit_set, bit_set-bit_or}

-- Whether chunk `i` is in the map.
unfoldable pub marked : Bytes → ℕ → Bool
marked map i = bit_set (get_or map (i / 8) 0) (i % 8)

abbrev pub chunk_of : ℕ → ℕ
chunk_of offset = offset / chunk_data_max

-- A span of the file that the check lets through: not empty, aligned, inside the file, one chunk at
-- most, its chunk number in the map's range, and not received before.
pub record IsFresh (size : ℕ) (map : Bytes) (offset len : ℕ) : Type 0 where
  pub not_empty : 0 < len
  pub aligned : offset ≡ chunk_of offset * chunk_data_max
  pub inside : offset + len ≤ size
  pub small : len ≤ chunk_data_max
  pub in_map : chunk_of offset / 8 < length map
  pub new : marked map (chunk_of offset) ≡ false

chunk_bit_lem : (i : ℕ) → chunk_bit i ≡ 2 ^ (i % 8)
chunk_bit_lem i = by_rest (i % 8) (omega arith)
  where
    by_rest : (k : ℕ) → k < 8 → 2 ^ k % 256 ≡ 2 ^ k
    by_rest zero h = refl
    by_rest (suc zero) h = refl
    by_rest (suc (suc zero)) h = refl
    by_rest (suc (suc (suc zero))) h = refl
    by_rest (suc (suc (suc (suc zero)))) h = refl
    by_rest (suc (suc (suc (suc (suc zero))))) h = refl
    by_rest (suc (suc (suc (suc (suc (suc zero)))))) h = refl
    by_rest (suc (suc (suc (suc (suc (suc (suc zero))))))) h = refl
    by_rest (suc (suc (suc (suc (suc (suc (suc (suc k)))))))) h = absurd (omega arith)

check_bit :
    (map : Bytes) (i : ℕ) → (bit_and (get_or map (i / 8) 0) (chunk_bit i) == 0) ≡ not (marked map i)
unfolding marked bit_set
check_bit map i = rw chunk_bit_lem (not_not _)
  where
    not_not : (b : Bool) → b ≡ not (not b)
    not_not true = refl
    not_not false = refl

-- The check accepts exactly the spans that are not empty, aligned to the chunk size, inside the
-- file, one chunk at most, within the map, and not marked.
pub span_check_iff :
    (size : ℕ) (map : Bytes) (offset len : ℕ)
    → (file_recv_span_check size map (length map) offset len ≡ true) ↔ IsFresh size map offset len
unfolding file_recv_span_check
span_check_iff size map offset len = (
  (λ e. ground (arith, check_bit map (chunk_of offset))),
  (λ f. ground (arith, check_bit map (chunk_of offset))),
)

byte_at : (map : Bytes) (i : ℕ) → All IsByte map → get_or map i 0 < 256
byte_at map i h = All-get_or IsByte map i 0 h (omega arith)

pub set_byte :
    (map : Bytes) (i j : ℕ)
    → All IsByte map
    → (bit_or (get_or map (i / 8) 0) (chunk_bit i) < 256)
      × (bit_set (bit_or (get_or map (i / 8) 0) (chunk_bit i)) (j % 8)
          ≡ (i % 8 == j % 8 || bit_set (get_or map (i / 8) 0) (j % 8)))
set_byte map i j h = rw chunk_bit_lem (
    bit_set-bit_or (get_or map (i / 8) 0) (i % 8) (j % 8) (byte_at map (i / 8) h) (omega arith)
      (omega arith))

same_rest : (i j : ℕ) → i / 8 ≡ j / 8 → (i % 8 == j % 8) ≡ (i == j)
same_rest i j h = ground arith

other_byte : (i j : ℕ) → i / 8 ≢ j / 8 → (i == j) ≡ false
other_byte i j h = ground arith

set_byte-marked :
    (map : Bytes) (i j : ℕ)
    → All IsByte map
    → i / 8 < length map
    → marked (set map (i / 8) (bit_or (get_or map (i / 8) 0) (chunk_bit i))) j
      ≡ (i == j || marked map j)
unfolding marked
set_byte-marked map i j h lt = elim (ℕ_discrete (i / 8) (j / 8)) [
  | yes e ↦
      rw
        (
          ← e,
          get_or-set_self map (i / 8) (bit_or (get_or map (i / 8) 0) (chunk_bit i)) 0 lt,
          (set_byte map i j h).1,
          same_rest i j e,
        )
        refl
  | no n ↦
      rw
        (
          get_or-set_ne map (i / 8) (j / 8) (bit_or (get_or map (i / 8) 0) (chunk_bit i)) 0 n,
          other_byte i j n,
        )
        refl
]

-- For an aligned offset within a map of bytes, marking succeeds; it adds the offset's chunk to the
-- marked ones, changes no other, and keeps the map's length and its entries bytes.
pub span_mark_lem :
    (map : Bytes) (offset : ℕ)
    → All IsByte map
    → offset ≡ chunk_of offset * chunk_data_max
    → chunk_of offset / 8 < length map
    → (map' : Bytes) × (file_recv_span_mark map (length map) offset ≡ some map')
      × (length map' ≡ length map)
      × All IsByte map'
      × ((j : ℕ) → marked map' j ≡ (chunk_of offset == j || marked map j))
unfolding file_recv_span_mark
span_mark_lem map offset h al lt =
    let i = chunk_of offset in
    let b = bit_or (get_or map (i / 8) 0) (chunk_bit i) in
    (
      set map (i / 8) b,
      ground arith,
      length-set map (i / 8) b,
      All-set IsByte map (i / 8) b h (set_byte map i 0 h).0,
      λ j. set_byte-marked map i j h lt,
    )
