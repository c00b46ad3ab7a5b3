-- ===== src/File/Storage/Growth.antt =====
-- How the bookkeeping of a reception starts and grows.
use tcpclient.Base.{
  ◌==◌, length, replicate, All, length-replicate, Bytes, IsByte, ℕ, zero, suc, ◌+◌, ◌*◌, ◌/◌, ◌<◌,
  ◌≡◌, refl, sym, ap, ◌∙◌, ◌≢◌, true, ◌||◌, some, [], ◌∷◌, arith, ℕ_discrete,
}
use tcpclient.Client.{RecvTask}
use tcpclient.File.Paths.{IsEntry}
use tcpclient.File.Chunks.{chunk_data_max}
use tcpclient.File.Chunks.Cover.{lt-chunk_count_of}
use tcpclient.File.Spans.Marks.{marked, chunk_of, IsFresh}
use tcpclient.File.Storage.{Spans, got, sum_below, chunk_total, Tracks}
use tcpclient.File.Storage.Sums.{sum_below-grow}

sum_below-got_nil : (n : ℕ) → sum_below n (got []) ≡ 0
unfolding sum_below got
sum_below-got_nil zero = refl
sum_below-got_nil (suc n) = omega (arith, sum_below-got_nil n)

All-replicate_zero : (n : ℕ) → All IsByte (replicate n 0)
All-replicate_zero zero = tt
All-replicate_zero (suc n) = (omega arith, All-replicate_zero n)

-- A freshly opened file with an empty map.
pub Tracks-start :
    (t : RecvTask) (n : ℕ)
    → t.inited ≡ true
    → 0 < t.size
    → t.received ≡ 0
    → n ≡ chunk_total t.size / 8 + 1
    → t.bitmap ≡ some (replicate n 0)
    → t.bitmap_len ≡ n
    → IsEntry t.save_name
    → Tracks [] t
unfolding got
Tracks-start t n hi hs hr e hb hl hn = record {
  inited = hi;
  size_pos = hs;
  map = replicate n 0;
  has_map = hb;
  map_length = length-replicate n 0 ∙ sym hl;
  map_room = hl ∙ e;
  map_bytes = All-replicate_zero n;
  at_most = λ i. omega arith;
  unmarked = λ i h. refl;
  named = hn;
  counted = sum_below-got_nil (chunk_total t.size) ∙ sym hr;
}

-- The chunk numbers of one aligned offset.
got_new :
    (s : Spans) (offset : ℕ) (bytes : Bytes)
    → offset ≡ chunk_of offset * chunk_data_max
    → got ((offset, bytes) ∷ s) (chunk_of offset) ≡ length bytes
unfolding got
got_new s offset bytes h = ground arith

got_old :
    (s : Spans) (offset : ℕ) (bytes : Bytes) (i : ℕ)
    → i ≢ chunk_of offset
    → got s i ≡ got ((offset, bytes) ∷ s) i
unfolding got
got_old s offset bytes i h = ground arith

-- A fresh span, written and marked.
pub Tracks-store :
    (s : Spans) (t : RecvTask) (offset : ℕ) (bytes : Bytes) (map' : Bytes)
    → (h : Tracks s t) → IsFresh t.size (h.map) offset (length bytes)
    → length map' ≡ length (h.map)
    → All IsByte map'
    → ((j : ℕ) → marked map' j ≡ (chunk_of offset == j || marked (h.map) j))
    → Tracks
        ((offset, bytes) ∷ s)
        (record t { bitmap = some map'; received = t.received + length bytes })
Tracks-store s t offset bytes map' h f len ok marks =
    let k : ℕ = chunk_of offset in
    record {
      inited = h.inited;
      size_pos = h.size_pos;
      map = map';
      has_map = refl;
      map_length = len ∙ h.map_length;
      map_room = h.map_room;
      map_bytes = ok;
      at_most = λ i. elim (ℕ_discrete i k) [
        | yes e ↦
            rw e (omega (arith, got_new s offset bytes f.aligned, f.inside, f.small, f.aligned))
        | no n ↦ omega (arith, got_old s offset bytes i n, h.at_most i)
      ];
      unmarked = λ i e. elim (ℕ_discrete i k) [
        | yes same ↦ absurd (ground (arith, marks i))
        | no n ↦ omega (arith, got_old s offset bytes i n, h.unmarked i (ground (arith, marks i)))
      ];
      named = h.named;
      counted =
          sum_below-grow (chunk_total t.size) k (length bytes) (got s) (got ((offset, bytes) ∷ s))
            (lt-chunk_count_of t.size chunk_data_max k (omega arith)
              (omega (arith, f.not_empty, f.inside, f.aligned)))
            (h.unmarked k f.new) (got_new s offset bytes f.aligned) (got_old s offset bytes)
          ∙ ap (λ (n : ℕ). n + length bytes) h.counted;
    }
