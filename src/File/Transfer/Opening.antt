-- ===== src/File/Transfer/Opening.antt =====
-- What `/accept` leaves when it opens a file.
use tcpclient.Utils.{max_filename_len}
use tcpclient.Commands.{commands_parse_tid_arg}
use tcpclient.File.Names.Safety.{unique_name_lem}
use tcpclient.File.Invariant.{Kind, TaskOk, IsValid}
use tcpclient.File.Invariant.Slots.{slot-TaskOk, get_or-cleared}
use tcpclient.File.Invariant.Receiving.{find-here, find-busy}
use tcpclient.File.Session.{Reach, Reach-IsValid}
use tcpclient.Base.{
  option-holds_either, if-holds, option-holds, ◌==◌, length, get_or, set, drop, replicate,
  length-set, get_or-set_self, Bytes, ℕ, ◌+◌, ◌/◌, ◌<◌, ◌≡◌, refl, sym, ap, ◌∙◌, ◌⊎◌, inl, inr,
  Bool, true, false, not, none, some, [], ◌∷◌, arith,
}
use tcpclient.System.{
  Notice, Log, Os, zero_size, bad_filename, no_save_name, no_download_dir, too_big, path_too_long,
  cannot_create, accepted, already_active, already_receiving, not_ready, opened_wb, made_dir,
  allocated,
}
use tcpclient.Protocol.MsgType
use tcpclient.Client.{RecvTask, no_recv, Client, slot, put_slot}
use tcpclient.Ui.{emit, ui_print}
use tcpclient.File.Names.{file_basename_sanitize, file_unique_name, file_join_path}
use tcpclient.File.Chunks.{chunk_data_max, file_chunk_count}
use tcpclient.File.Paths.{touched}
use tcpclient.File.Tasks.{
  download_dir, path_size, find_from, has_tid, recv_task_find, recv_task_active, recv_task_clear,
  send_tid_unchecked, send_tid, recv_task_reject,
}
use tcpclient.File.Receive.{
  recv_name_taken, refuse, confirm_accept, open_target, make_dir, make_dir_inv, choose_name,
  accept_task, file_cmd_accept,
}
use tcpclient.File.Storage.{Spans, stored_since}
use tcpclient.File.Invariant.Basic.{Quiet, quiet}
use tcpclient.File.Invariant.Output.{send_tid-Quiet}
use tcpclient.File.Transfer.Receiving.{find_from-set}

-- The reception in slot `i` was just accepted: it is open with an empty map and an empty file.
pub record Accepted (tid size i : ℕ) (c : Client) : Type 0 where
  pub found : recv_task_find tid c ≡ some i
  pub is_open : (slot c i).fp ≡ true
  pub of_size : (slot c i).size ≡ size
  pub none_received : (slot c i).received ≡ 0
  pub empty_map : (slot c i).bitmap ≡ some (replicate (slot c i).bitmap_len 0)
  pub nothing_stored : stored_since c.log ≡ []

-- Before the file is opened, nothing was created or removed but the download directory created.
abbrev MaybeMade : Log → Log → Type 0
MaybeMade before l = (l ≡ before) ⊎ (l ≡ made_dir download_dir ∷ before)

-- The file was created, and nothing else but, before it, the download directory.
abbrev pub Opened : Bytes → Log → Log → Type 0
Opened path before l =
    (l ≡ opened_wb path ∷ before) ⊎ (l ≡ opened_wb path ∷ made_dir download_dir ∷ before)

-- A file was opened for writing at a path where the probe in state `log` found none; besides it, the
-- download directory was created at most, and nothing was removed.
abbrev pub OpenedNew : Os → Log → Client → Type 0
OpenedNew os log d =
    (path : Bytes) × (os.access log path ≡ false) × Opened path (touched log) (touched d.log)

module _ (os : Os) (tid size i : ℕ) (log : Log) where
  abbrev Good : Client → Type 0
  Good d = Accepted tid size i d × OpenedNew os log d

  -- If the reception is open at the end, all is well.
  abbrev pub Opens : Client × Bool → Type 0
  Opens r = (slot r.0 i).fp ≡ true → Good r.0

  clear-Opens : (c : Client) (b : Bool) → Opens (recv_task_clear i c, b)
  unfolding recv_task_clear
  clear-Opens c b e = absurd (cc (ap (λ (t : RecvTask). t.fp) (get_or-cleared c.recv_tasks i), e))

  refuse-Opens : (why : Notice) (c : Client) → Opens (refuse os i why c)
  unfolding recv_task_reject
  refuse-Opens why c =
      clear-Opens (send_tid_unchecked os MsgType.file_reject (slot c i).tid (ui_print why c)) true

  -- Output keeps what was reached.
  quiet-Good : (c d : Client) → Quiet c d → Good c → Good d
  unfolding recv_task_find
  quiet-Good c d (es, er, f) (a, (path, free, only)) = (
    record {
      found = ap (λ ts. find_from (has_tid tid) ts 0) er ∙ a.found;
      is_open = ap (λ ts. (get_or ts i no_recv).fp) er ∙ a.is_open;
      of_size = ap (λ ts. (get_or ts i no_recv).size) er ∙ a.of_size;
      none_received = ap (λ ts. (get_or ts i no_recv).received) er ∙ a.none_received;
      empty_map = rw er a.empty_map;
      nothing_stored = f.0 ∙ a.nothing_stored;
    },
    (path, free, rw f.5 only),
  )

  confirm_accept-Opens : (c : Client) → Good c → Opens (confirm_accept os i tid c)
  unfolding confirm_accept
  confirm_accept-Opens c g =
      let d : Client = (send_tid os MsgType.file_accept tid c).0 in
      let shown : Client = ui_print (accepted tid (slot d i).save_name) d in
      if-holds Opens (send_tid os MsgType.file_accept tid c).1 {x = (shown, true)}
        (λ e h.
          quiet-Good d shown (quiet d)
            (quiet-Good c d (send_tid-Quiet os MsgType.file_accept tid c) g))
        (λ e. clear-Opens d false)

  -- The reception has its save name, and the probe found no file of this name.
  record Ready (c : Client) : Type 0 where
    in_range : i < length c.recv_tasks
    found : recv_task_find tid c ≡ some i
    of_size : (slot c i).size ≡ size
    none_received : (slot c i).received ≡ 0
    is_free : recv_name_taken os log (slot c i).save_name ≡ false

  open_target-Opens :
      (c : Client)
      → Ready c
      → MaybeMade (touched log) (touched c.log)
      → Opens (open_target os i tid c)
  unfolding open_target recv_task_find recv_name_taken
  open_target-Opens c ready same =
      let t : RecvTask = slot c i in
      let len : ℕ = file_chunk_count t.size chunk_data_max / 8 + 1 in
      let t1 : RecvTask = record t { bitmap_len = len; bitmap = some (replicate len 0) } in
      let t2 : RecvTask = record t1 { fp = true } in
      let c1 : Client = put_slot (emit allocated c) i t1 in
      let here : get_or (set c.recv_tasks i t1) i no_recv ≡ t1 =
        get_or-set_self c.recv_tasks i t1 no_recv ready.in_range in
      let last : get_or (set (set c.recv_tasks i t1) i t2) i no_recv ≡ t2 =
        get_or-set_self (set c.recv_tasks i t1) i t2 no_recv
          (omega (arith, ready.in_range, length-set c.recv_tasks i t1)) in
      if-holds Opens (not (os.malloc c.log len))
        (λ e. refuse-Opens too_big (put_slot c i (record t { bitmap_len = len })))
        (λ e.
          option-holds Opens (file_join_path download_dir t.save_name path_size)
            (refuse-Opens path_too_long c1)
            (λ path joined.
              if-holds Opens (not (os.fopen_wb c1.log path)) (λ e. refuse-Opens cannot_create c1)
                (λ e. confirm_accept-Opens (put_slot (emit (opened_wb path) c1) i t2) (
                  record {
                    found =
                        find_from-set (has_tid tid) (set c.recv_tasks i t1) i 0 t2
                          (ap (has_tid tid) (sym here))
                        ∙ find_from-set (has_tid tid) c.recv_tasks i 0 t1 refl
                        ∙ ready.found;
                    is_open = ap (λ (u : RecvTask). u.fp) last;
                    of_size = ap (λ (u : RecvTask). u.size) last ∙ ready.of_size;
                    none_received = ap (λ (u : RecvTask). u.received) last ∙ ready.none_received;
                    empty_map =
                        ap (λ (u : RecvTask). u.bitmap) last
                        ∙ ap (λ (u : RecvTask). some (replicate u.bitmap_len 0)) (sym last);
                    nothing_stored = refl;
                  },
                  (path, probed path joined ready.is_free, opened_after path same),
                ))))
    where
      opened_after :
          (path : Bytes) {l : Log}
          → MaybeMade (touched log) l
          → Opened path (touched log) (opened_wb path ∷ l)
      opened_after path (inl e) = inl (ap (◌∷◌ (opened_wb path)) e)
      opened_after path (inr e) = inr (ap (◌∷◌ (opened_wb path)) e)

      probed :
          (path : Bytes)
          → file_join_path download_dir (slot c i).save_name path_size ≡ some path
          → (elim (file_join_path download_dir (slot c i).save_name path_size) [
            | none ↦ true
            | some path ↦ os.access log path
          ])
            ≡ false
          → os.access log path ≡ false
      probed path e h = rw e at h

  choose_name-Opens :
      (c : Client)
      → i < length c.recv_tasks
      → recv_task_find tid c ≡ some i
      → (slot c i).size ≡ size
      → (slot c i).received ≡ 0
      → c.log ≡ log
      → Opens (choose_name os i tid c)
  unfolding choose_name recv_task_find
  choose_name-Opens c lt found of_size none_received same =
      option-holds Opens (file_basename_sanitize (slot c i).filename max_filename_len)
        (refuse-Opens bad_filename c)
        (λ base e.
          option-holds Opens (file_unique_name base (recv_name_taken os c.log) max_filename_len)
            (refuse-Opens no_save_name c)
            (λ name e'.
              let t1 : RecvTask = record (slot c i) { save_name = name } in
              let c1 : Client = put_slot c i t1 in
              let here : get_or (set c.recv_tasks i t1) i no_recv ≡ t1 =
                get_or-set_self c.recv_tasks i t1 no_recv lt in
              let (k, small, eq, free, fits, earlier) =
                unique_name_lem base (recv_name_taken os c.log) max_filename_len {name = name} e' in
              let ready : Ready c1 = record {
                in_range = omega (arith, lt, length-set c.recv_tasks i t1);
                found = find_from-set (has_tid tid) c.recv_tasks i 0 t1 refl ∙ found;
                of_size = ap (λ (u : RecvTask). u.size) here ∙ of_size;
                none_received = ap (λ (u : RecvTask). u.received) here ∙ none_received;
                is_free =
                    ap (λ (u : RecvTask). recv_name_taken os log u.save_name) here
                    ∙ ap (λ l. recv_name_taken os l name) (sym same)
                    ∙ free;
              } in
              option-holds Opens (make_dir os c1) (refuse-Opens no_download_dir c1) (λ c2 e.
                elim (make_dir_inv os c1 c2 e) [
                  | inl there ↦ rw there (open_target-Opens c1 ready (inl (ap touched same)))
                  | inr made ↦ rw made (
                      open_target-Opens (emit (made_dir download_dir) c1)
                        (record {
                          in_range = ready.in_range;
                          found = ready.found;
                          of_size = ready.of_size;
                          none_received = ready.none_received;
                          is_free = ready.is_free;
                        })
                        (inr (ap (λ l. made_dir download_dir ∷ touched l) same)))
                ])))

-- A busy task that is not active has received nothing.
pending_received :
    (s : Spans) (t : RecvTask) → t.busy ≡ true → t.fp ≡ false → TaskOk s t → t.received ≡ 0
pending_received s t hb hf h = by_flags t.busy t.fp hb hf h
  where
    by_flags : (b f : Bool) → b ≡ true → f ≡ false → Kind b f s t → t.received ≡ 0
    by_flags true false e e' k = k.2
    by_flags false f e e' k = absurd (cc)
    by_flags true true e e' k = absurd (cc)

accept-task_found :
    (os : Os) (text : Bytes) (tid i : ℕ) (c : Client)
    → commands_parse_tid_arg (drop 7 text) ≡ some tid
    → recv_task_find tid c ≡ some i
    → file_cmd_accept os text c ≡ accept_task os i tid c
unfolding file_cmd_accept
accept-task_found os text tid i c parsed found =
    let Is : Client × Bool → Type 0 = λ r. r ≡ accept_task os i tid c in
    option-holds_either Is (commands_parse_tid_arg (drop 7 text)) (λ e. absurd (cc))
      (λ n e.
        let same_tid : n ≡ tid = ground arith in
        let found_n : recv_task_find n c ≡ some i = ap (λ m. recv_task_find m c) same_tid ∙ found in
        option-holds_either Is (recv_task_find n c) (λ e. absurd (cc))
          (λ k e.
            let same : k ≡ i = ground arith in
            ap (λ m. accept_task os k m c) same_tid ∙ ap (λ m. accept_task os m tid c) same))

accept_task-Opens :
    (os : Os) (i tid : ℕ) (c : Client)
    → IsValid c
    → recv_task_find tid c ≡ some i
    → (slot c i).fp ≡ false
    → Opens os tid (slot c i).size i c.log (accept_task os i tid c)
unfolding accept_task
accept_task-Opens os i tid c v found not_open =
    let s : Spans = stored_since c.log in
    let received =
      pending_received s (slot c i) (find-busy tid c found) not_open
        (slot-TaskOk s c.recv_tasks i v.tasks) in
    let Ends : Client × Bool → Type 0 = Opens os tid (slot c i).size i c.log in
    if-holds Ends (slot c i).fp {x = (ui_print already_active c, true)} (λ e h. absurd (cc))
      (λ e.
        option-holds Ends (recv_task_active c) {f = λ j. (ui_print already_receiving c, true)}
          (if-holds Ends (not (slot c i).inited) {x = (ui_print not_ready c, true)}
            (λ e h. absurd (cc))
            (λ e.
              if-holds Ends ((slot c i).size == 0)
                (λ e. refuse-Opens os tid (slot c i).size i c.log zero_size c)
                (λ e.
                  choose_name-Opens os tid (slot c i).size i c.log c (find-here tid c found) found
                    refl received refl)))
          (λ j e h. absurd (cc)))

-- In a reachable state, the id of a reception that is not active is accepted. If the reception is
-- active afterwards, its file was opened at a path where the probe had found no file; besides it, the
-- download directory was created at most, and nothing was removed. The reception keeps its id and
-- size, has received nothing, has an empty map, and nothing is written to its file yet.
pub accept_opens :
    (os : Os) (text : Bytes) (tid i : ℕ) {c : Client}
    → Reach os c
    → commands_parse_tid_arg (drop 7 text) ≡ some tid
    → recv_task_find tid c ≡ some i
    → (slot c i).fp ≡ false
    → (slot (file_cmd_accept os text c).0 i).fp ≡ true
    → Accepted tid (slot c i).size i (file_cmd_accept os text c).0
      × OpenedNew os c.log (file_cmd_accept os text c).0
accept_opens os text tid i {c} r parsed found not_open is_open =
    let same = accept-task_found os text tid i c parsed found in
    rw same (accept_task-Opens os i tid c (Reach-IsValid os r) found not_open (rw same at is_open))
