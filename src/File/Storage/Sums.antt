-- ===== src/File/Storage/Sums.antt =====
-- Sums over the chunks of a file.
use tcpclient.Client.{RecvTask}
use tcpclient.Base.{
  ℕ, zero, suc, ◌+◌, ◌*◌, ◌/◌, ◌≤◌, ◌<◌, min, ◌≡◌, refl, ◌≢◌, true, [], ◌∷◌, arith, dec_lt,
}
use tcpclient.File.Chunks.{chunk_data_max, file_chunk_count}
use tcpclient.File.Chunks.Cover.{lt-chunk_count_of}
use tcpclient.File.Storage.{Spans, written, got, room, sum_below, chunk_total, Tracks}

pub sum_below-le : (n : ℕ) (f g : ℕ → ℕ) → ((i : ℕ) → f i ≤ g i) → sum_below n f ≤ sum_below n g
unfolding sum_below
sum_below-le zero f g h = omega arith
sum_below-le (suc n) f g h = omega (arith, sum_below-le n f g h, h n)

-- Equal sums of two functions of which one is below the other: they agree.
sum_below-eq :
    (n : ℕ) (f g : ℕ → ℕ)
    → ((i : ℕ) → f i ≤ g i)
    → sum_below n f ≡ sum_below n g
    → (i : ℕ) → i < n
    → f i ≡ g i
unfolding sum_below
sum_below-eq zero f g h e i lt = absurd (omega arith)
sum_below-eq (suc n) f g h e i lt = elim (dec_lt i n) [
  | yes below ↦ sum_below-eq n f g h (omega (arith, sum_below-le n f g h, h n)) i below
  | no last ↦ let same : i ≡ n = omega arith in rw same (omega (arith, sum_below-le n f g h, h n))
]

sum_below-same :
    (n : ℕ) (f g : ℕ → ℕ) → ((i : ℕ) → i < n → f i ≡ g i) → sum_below n f ≡ sum_below n g
unfolding sum_below
sum_below-same zero f g h = refl
sum_below-same (suc n) f g h =
    omega (arith, sum_below-same n f g (λ i lt. h i (omega arith)), h n (omega arith))

-- One value that grows from 0.
pub sum_below-grow :
    (n k len : ℕ) (f g : ℕ → ℕ)
    → k < n
    → f k ≡ 0
    → g k ≡ len
    → ((i : ℕ) → i ≢ k → f i ≡ g i)
    → sum_below n g ≡ sum_below n f + len
unfolding sum_below
sum_below-grow zero k len f g lt fk gk h = absurd (omega arith)
sum_below-grow (suc n) k len f g lt fk gk h = elim (dec_lt k n) [
  | yes below ↦ omega (arith, sum_below-grow n k len f g below fk gk h, h n (omega arith))
  | no last ↦
      let same : k ≡ n = omega arith in
      omega
        (arith, rw same at fk, rw same at gk, sum_below-same n f g (λ i less. h i (omega arith)))
]

-- The chunks below `n` hold the file up to there.
sum_below-room : (size n : ℕ) → sum_below n (room size) ≡ min size (n * chunk_data_max)
unfolding sum_below
sum_below-room size zero = omega arith
sum_below-room size (suc n) = omega (arith, sum_below-room size n)

pub sum_below-room_all : (size : ℕ) → sum_below (chunk_total size) (room size) ≡ size
unfolding file_chunk_count
sum_below-room_all size = ground (arith, sum_below-room size (chunk_total size))

got-written :
    (s : Spans) (i p : ℕ)
    → i * chunk_data_max ≤ p
    → p < i * chunk_data_max + got s i
    → written s p ≡ true
unfolding got written
got-written [] i p h k = absurd (omega arith)
got-written ((offset, bytes) ∷ s) i p h k = ground (arith, got-written s i p h)

-- Once `received` is the size, every byte of the file has been written.
pub Tracks-written :
    (s : Spans) (t : RecvTask)
    → Tracks s t
    → t.received ≡ t.size
    → (p : ℕ) → p < t.size
    → written s p ≡ true
Tracks-written s t h e p lt =
    let i : ℕ = p / chunk_data_max in
    let below : i < chunk_total t.size =
      lt-chunk_count_of t.size chunk_data_max i (omega arith) (omega arith) in
    let full : got s i ≡ room t.size i =
      sum_below-eq (chunk_total t.size) (got s) (room t.size) h.at_most
        (omega (arith, h.counted, sum_below-room_all t.size)) i below in
    got-written s i p (omega arith) (omega (arith, full))
