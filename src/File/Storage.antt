-- ===== src/File/Storage.antt =====
-- What a reception has put into its file, read off the log, against the task's own bookkeeping.
-- These are specifications; the code is in Tasks and Receive.
pub mod Sums
pub mod Growth
pub mod Content
use tcpclient.Base.{
  ltb, leb, ◌==◌, if◌then◌else◌, length, All, Bytes, IsByte, ℕ, zero, suc, ◌+◌, ◌*◌, ◌/◌, ◌≤◌, ◌<◌,
  ◌≡◌, Bool, true, false, ◌&&◌, ◌||◌, some, List, [], ◌∷◌,
}
use tcpclient.System.{
  Log, wire, line, newline, prompt, opened_rb, opened_wb, closed, read, stored, removed, made_dir,
  allocated, freed,
}
use tcpclient.Client.{RecvTask}
use tcpclient.File.Paths.{IsEntry}
use tcpclient.File.Chunks.{chunk_data_max, file_chunk_count}
use tcpclient.File.Chunks.Cover.{chunk_len}
use tcpclient.File.Spans.Marks.{marked}

abbrev pub Spans : Type 0
Spans = List (ℕ × Bytes)

-- The writes since the last file was opened for writing, the newest first.
abbrev pub stored_since : Log → Spans
stored_since [] = []
stored_since (stored name offset bytes ∷ log) = (offset, bytes) ∷ stored_since log
stored_since (opened_wb path ∷ log) = []
stored_since (wire bytes ∷ log) = stored_since log
stored_since (line text ∷ log) = stored_since log
stored_since (newline ∷ log) = stored_since log
stored_since (prompt ∷ log) = stored_since log
stored_since (opened_rb path ∷ log) = stored_since log
stored_since (closed ∷ log) = stored_since log
stored_since (read n ∷ log) = stored_since log
stored_since (removed path ∷ log) = stored_since log
stored_since (made_dir path ∷ log) = stored_since log
stored_since (allocated ∷ log) = stored_since log
stored_since (freed ∷ log) = stored_since log

-- Whether some write covers position `p` of the file.
unfoldable pub written : Spans → ℕ → Bool
written [] p = false
written ((offset, bytes) ∷ s) p = (leb offset p && ltb p (offset + length bytes)) || written s p

-- How many bytes the newest write at chunk `i` has.
unfoldable pub got : Spans → ℕ → ℕ
got [] i = 0
got ((offset, bytes) ∷ s) i = if i * chunk_data_max == offset then length bytes else got s i

-- How many bytes of the file belong to chunk `i`.
abbrev pub room : ℕ → ℕ → ℕ
room size i = chunk_len size chunk_data_max (i * chunk_data_max)

unfoldable pub sum_below : ℕ → (ℕ → ℕ) → ℕ
sum_below zero f = 0
sum_below (suc n) f = sum_below n f + f n

abbrev pub chunk_total : ℕ → ℕ
chunk_total size = file_chunk_count size chunk_data_max

-- An active reception: it has a map of the right size, every chunk holds at most its bytes and
-- nothing while it is not marked, the save name is the name of an entry, and `received` counts the bytes stored.
pub record Tracks (s : Spans) (t : RecvTask) : Type 0 where
  pub inited : t.inited ≡ true
  pub size_pos : 0 < t.size
  pub map : Bytes
  pub has_map : t.bitmap ≡ some map
  pub map_length : length map ≡ t.bitmap_len
  pub map_room : t.bitmap_len ≡ chunk_total t.size / 8 + 1
  pub map_bytes : All IsByte map
  pub at_most : (i : ℕ) → got s i ≤ room t.size i
  pub unmarked : (i : ℕ) → marked map i ≡ false → got s i ≡ 0
  pub named : IsEntry t.save_name
  pub counted : sum_below (chunk_total t.size) (got s) ≡ t.received
