-- ===== src/File/Paths.antt =====
-- Which files the transfers of src/file.c create and remove. These are specifications; the code is
-- in Names, Tasks and Receive.
use tcpclient.Base.{
  if-holds, option-holds, ◌==◌, if◌then◌else◌, length, All, length-append, All-append, Bytes, codes,
  ℕ, ◌≤◌, ◌<◌, ◌≡◌, refl, ap, ◌≢◌, ◌⊎◌, inl, inr, Bool, none, some, [], ◌∷◌, ◌++◌, arith,
}
use tcpclient.Utils.{decimal}
use tcpclient.Utils.Digits.{IsDigit, decimal-IsDigit}
use tcpclient.Client.{RecvTask}
use tcpclient.System.{
  Effect, Log, wire, line, newline, prompt, opened_rb, opened_wb, closed, read, stored, removed,
  made_dir, allocated, freed,
}
use tcpclient.File.Names.{file_basename_sanitize, candidate, file_unique_name, file_join_path}
use tcpclient.File.Names.Safety.{IsSafe, sanitize-IsSafe, unique_name_lem}
use tcpclient.File.Tasks.{download_dir, path_size, clear_effects}

-- The effects that create or remove, the newest first.
abbrev pub touched : Log → Log
touched [] = []
touched (opened_wb path ∷ log) = opened_wb path ∷ touched log
touched (removed path ∷ log) = removed path ∷ touched log
touched (made_dir path ∷ log) = made_dir path ∷ touched log
touched (stored name offset bytes ∷ log) = touched log
touched (wire bytes ∷ log) = touched log
touched (line text ∷ log) = touched log
touched (newline ∷ log) = touched log
touched (prompt ∷ log) = touched log
touched (opened_rb path ∷ log) = touched log
touched (closed ∷ log) = touched log
touched (read n ∷ log) = touched log
touched (allocated ∷ log) = touched log
touched (freed ∷ log) = touched log

-- A name that denotes an entry of the directory itself.
pub record IsEntry (name : Bytes) : Type 0 where
  pub safe : All IsSafe name
  pub not_empty : name ≢ []
  pub not_dot : name ≢ codes "."
  pub not_dots : name ≢ codes ".."

abbrev pub IsDownload : Bytes → Type 0
IsDownload path = (name : Bytes) × (path ≡ codes "downloads/" ++ name) × IsEntry name

-- Files are created and removed in the download directory only, and no other directory is created.
abbrev pub InDownloads : Effect → Type 0
InDownloads (opened_wb path) = IsDownload path
InDownloads (removed path) = IsDownload path
InDownloads (made_dir path) = path ≡ codes "downloads"
InDownloads _ = Unit

-- No save name, or the name of an entry.
abbrev pub IsSaveName : Bytes → Type 0
IsSaveName name = (name ≡ []) ⊎ IsEntry name

pub join-IsDownload :
    (name : Bytes) (out_sz : ℕ) {path : Bytes}
    → IsEntry name
    → file_join_path download_dir name out_sz ≡ some path
    → IsDownload path
unfolding file_join_path
join-IsDownload name out_sz {path} h e = (name, ground arith, h)

digits-IsSafe : (s : Bytes) → All IsDigit s → All IsSafe s
digits-IsSafe [] h = tt
digits-IsSafe (c ∷ s) h = (
  record {
    visible = omega (arith, h.0);
    ascii = omega (arith, h.0);
    no_separator = ground (arith, h.0);
  },
  digits-IsSafe s h.1,
)

too_long :
    (base rest : Bytes) (short : Bytes)
    → base ≢ []
    → length short ≤ length rest
    → base ++ rest ≢ short
too_long [] rest short ne h e = ne refl
too_long (c ∷ base) rest short ne h e = omega (arith, length-append (c ∷ base) rest, ap length e)

-- A number behind a safe name keeps it safe.
candidate-IsEntry : (base : Bytes) (k : ℕ) → k < 1000 → IsEntry base → IsEntry (candidate base k)
unfolding candidate
candidate-IsEntry base k lt h =
    if-holds IsEntry (k == 0) (λ e. h)
      (λ e. record {
        safe = All-append IsSafe base (codes " (" ++ (decimal k ++ codes ")")) h.safe (
            All-append IsSafe (codes " (") (decimal k ++ codes ")") (blank, (bracket, tt))
              (All-append IsSafe (decimal k) (codes ")")
                (digits-IsSafe (decimal k) (decimal-IsDigit k (omega arith))) (close, tt)));
        not_empty = too_long base _ [] h.not_empty (omega arith);
        not_dot =
            too_long base (codes " (" ++ (decimal k ++ codes ")")) (codes ".") h.not_empty
              (omega arith);
        not_dots =
            too_long base (codes " (" ++ (decimal k ++ codes ")")) (codes "..") h.not_empty
              (omega arith);
      })
  where
    blank : IsSafe b' '
    blank = record { visible = omega arith; ascii = omega arith; no_separator = refl }

    bracket : IsSafe b'('
    bracket = record { visible = omega arith; ascii = omega arith; no_separator = refl }

    close : IsSafe b')'
    close = record { visible = omega arith; ascii = omega arith; no_separator = refl }

-- The name that `/accept` chooses.
pub chosen-IsEntry :
    (raw : Bytes) (exists : Bytes → Bool) (size : ℕ) {base name : Bytes}
    → file_basename_sanitize raw size ≡ some base
    → file_unique_name base exists size ≡ some name
    → IsEntry name
chosen-IsEntry raw exists size {base} {name} e e' =
    let (safe, ne, lt, d1, d2) = sanitize-IsSafe raw size {out = base} e in
    let (k, small, eq, no_file, fits, before) = unique_name_lem base exists size {name = name} e' in
    let h : IsEntry base = record { safe = safe; not_empty = ne; not_dot = d1; not_dots = d2 } in
    rw eq (candidate-IsEntry base k small h)

-- Clearing a task removes a file of the download directory at most.
pub clear_effects-InDownloads :
    (t : RecvTask) (log : Log)
    → IsSaveName t.save_name
    → All InDownloads (touched log)
    → All InDownloads (touched (clear_effects t log))
unfolding clear_effects
clear_effects-InDownloads t log h v =
    let closed_log : Log = if t.fp then closed ∷ log else log in
    let kept : Fine closed_log = if-holds Fine t.fp (λ e. v) (λ e. v) in
    option-holds Fine t.bitmap (by_name t.save_name h closed_log kept)
      (λ map e. by_name t.save_name h closed_log kept)
  where
    Fine : Log → Type 0
    Fine l = All InDownloads (touched l)

    by_name :
        (name : Bytes)
        → IsSaveName name
        → (l : Log) → All InDownloads (touched l)
        → All InDownloads (
            touched (elim name as (λ (n : Bytes). Log) [
              | [] ↦ l
              | x ∷ name ↦ elim (file_join_path download_dir (x ∷ name) path_size) [
                | none ↦ l
                | some path ↦ removed path ∷ l
              ]
            ]))
    by_name [] h l k = k
    by_name (x ∷ name) (inl e) l k = absurd (cc)
    by_name (x ∷ name) (inr h) l k =
        option-holds (λ l. All InDownloads (touched l))
          (file_join_path download_dir (x ∷ name) path_size) k
          (λ path e. (join-IsDownload (x ∷ name) path_size h e, k))
