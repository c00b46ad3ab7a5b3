-- ===== src/File/Transfer/Whole.antt =====
-- A whole transfer, from the sender's file to the receiver's.
use tcpclient.Base.{
  get_or-replicate, length, get_or, replicate, Bytes, ℕ, zero, suc, ◌+◌, ◌*◌, ◌/◌, ◌%◌, ◌^◌, ◌≤◌,
  ◌<◌, ◌≡◌, refl, ap, ◌∙◌, false, Option, none, some, List, [], ◌∷◌, ◌++◌, arith,
}
use tcpclient.System.{Os, saved, line, closed, freed}
use tcpclient.Client.{Client, slot}
use tcpclient.File.Chunks.{chunk_data_max}
use tcpclient.File.Spans.Bits.{bit_set}
use tcpclient.File.Spans.Marks.{marked}
use tcpclient.File.Tasks.{recv_task_complete}
use tcpclient.File.Send.Wire.{wired, Works, chunk_frames}
use tcpclient.File.Send.Progress.{ticks, Begins, sends_all}
use tcpclient.File.Storage.{stored_since}
use tcpclient.File.Storage.Content.{byte_at, slices-byte_at}
use tcpclient.File.Storage.Sums.{Tracks-written}
use tcpclient.File.Session.{Reach, Reach-IsValid}
use tcpclient.File.Session.Facts.{Outcome, complete_valid, whole, short}
use tcpclient.File.Transfer.{take_frames, Stores}
use tcpclient.File.Transfer.Opening.{Accepted}
use tcpclient.File.Transfer.Receiving.{Holds, open_Tracks, chunk_frames-Holds}

no_bit : (k : ℕ) → k < 8 → bit_set 0 k ≡ false
unfolding bit_set
no_bit zero h = refl
no_bit (suc zero) h = refl
no_bit (suc (suc zero)) h = refl
no_bit (suc (suc (suc zero))) h = refl
no_bit (suc (suc (suc (suc zero)))) h = refl
no_bit (suc (suc (suc (suc (suc zero))))) h = refl
no_bit (suc (suc (suc (suc (suc (suc zero)))))) h = refl
no_bit (suc (suc (suc (suc (suc (suc (suc zero))))))) h = refl
no_bit (suc (suc (suc (suc (suc (suc (suc (suc k)))))))) h = absurd (omega arith)

unmarked-replicate : (n j : ℕ) → marked (replicate n 0) j ≡ false
unfolding marked
unmarked-replicate n j =
    ap (λ (b : ℕ). bit_set b (j % 8)) (get_or-replicate {A = ℕ} n (j / 8))
    ∙ no_bit (j % 8) (omega arith)

Accepted-Holds :
    (os : Os) (tid : ℕ) (content : Bytes) (i : ℕ) (c : Client)
    → Reach os c
    → Accepted tid (length content) i c
    → Holds tid content i 0 c
Accepted-Holds os tid content i c r h = record {
  valid = Reach-IsValid os r;
  found = h.found;
  is_open = h.is_open;
  of_size = h.of_size;
  so_far = omega (arith, h.none_received);
  later_free = λ j le.
      ap (λ (o : Option Bytes). marked (elim o [ none ↦ [] | some map ↦ map ]) j) h.empty_map
      ∙ unmarked-replicate (slot c i).bitmap_len j;
  slices = rw h.nothing_stored tt;
}

-- The report that the file is saved, and the clean-up behind it.
saved_whole :
    (tid : ℕ) (content : Bytes) (i k : ℕ) (c : Client)
    → Holds tid content i k c
    → length content ≤ k * chunk_data_max
    → (recv_task_complete tid c).log
      ≡ freed ∷ closed ∷ line (saved (slot c i).tid (slot c i).save_name (length content)) ∷ c.log
saved_whole tid content i k c h le =
    by_outcome (recv_task_complete tid c) (complete_valid {c = c} tid i h.valid h.found h.is_open)
  where
    by_outcome :
        (d : Client)
        → Outcome (slot c i) c d
        → d.log
          ≡ freed
            ∷ closed
            ∷ line (saved (slot c i).tid (slot c i).save_name (length content))
            ∷ c.log
    by_outcome d (whole e log_eq covers) =
        log_eq
        ∙ ap (λ n. freed ∷ closed ∷ line (saved (slot c i).tid (slot c i).save_name n) ∷ c.log)
            h.of_size
    by_outcome d (short lt log_eq) = absurd (omega (arith, lt, h.so_far, h.of_size, le))

whole_content :
    (tid : ℕ) (content : Bytes) (i k : ℕ) (c : Client)
    → Holds tid content i k c
    → length content ≤ k * chunk_data_max
    → (p : ℕ) → p < length content
    → byte_at (stored_since c.log) p ≡ some (get_or content p 0)
whole_content tid content i k c h le p lt = slices-byte_at content (stored_since c.log) p h.slices (
    Tracks-written (stored_since c.log) (slot c i) (open_Tracks tid content i k c h)
      (omega (arith, h.so_far, h.of_size, le)) p (omega (arith, h.of_size, lt)))

-- One client's task stands at the start of a file of more than `2 n` and at most `2 n + 2` chunks, and
-- of less than 2 ^ 63 bytes; its reads deliver the file and its frames are sent. Another client, in
-- any reachable state, has just accepted a file of this size under the same 32-bit id, and its writes
-- succeed. Then the frames that `n + 1` ticks of the first put on the connection, taken in order by
-- the second, leave its reception with all bytes counted and every position of its file holding the
-- byte of the sender's file; and its completion reports the file as saved with this size and keeps
-- it.
pub transfer_whole :
    (sender receiver : Os) (content : Bytes) (n i : ℕ) (c : Client) {d : Client}
    → Works sender content
    → Begins content c
    → Stores receiver
    → Reach receiver d
    → Accepted c.send_task.tid (length content) i d
    → c.send_task.tid < 2 ^ 32
    → 2 * n * chunk_data_max < length content
    → length content ≤ (2 * n + 2) * chunk_data_max
    → length content < 2 ^ 63
    → (frames : List Bytes) × (wired (ticks sender (suc n) c).log ≡ frames ++ wired c.log)
      × ((slot (take_frames receiver frames d) i).received ≡ length content)
      × ((p : ℕ)
          → p < length content
          → byte_at (stored_since (take_frames receiver frames d).log) p
            ≡ some (get_or content p 0))
      × ((recv_task_complete c.send_task.tid (take_frames receiver frames d)).log
          ≡ freed
            ∷ closed
            ∷ line (
                saved
                  (slot (take_frames receiver frames d) i).tid
                  (slot (take_frames receiver frames d) i).save_name
                  (length content))
            ∷ (take_frames receiver frames d).log)
transfer_whole sender receiver content n i c {d} w b s r a ht more le big =
    let tid : ℕ = c.send_task.tid in
    let frames : List Bytes = chunk_frames tid content (2 * n + 2) in
    let e : Client = take_frames receiver frames d in
    let sent = sends_all sender content n c w b more le (omega (arith, big)) in
    let h : Holds tid content i (2 * n + 2) e =
      chunk_frames-Holds tid content i receiver (2 * n + 2) d s ht big
        (Accepted-Holds receiver tid content i d r a) in
    (
      frames,
      sent.2,
      omega (arith, h.so_far, le),
      whole_content tid content i (2 * n + 2) e h le,
      saved_whole tid content i (2 * n + 2) e h le,
    )
