-- ===== src/Store/Handle/Writing.antt =====
-- `WriteAt`, `Append`, `Truncate` and what else an open handle of internal/store/upload.go offers:
-- `TransferError`, `Fail`, `SetObjectMeta`, `BaseSize`.
use xsync.Prelude.{
  ℕ, ◌+◌, Bool, true, false, ◌&&◌, Option, none, some, List, [], ◌∷◌, ◌==◌, ltb, leb, length, min,
  if◌then◌else◌,
}
use xsync.Prelude.Bytes.{Bytes}
use xsync.Prelude.Int.{ℤ, pos, negsuc}
use xsync.Bolt.{Bolt}
use xsync.Capacity.{check_critical}
use xsync.Upload.Coverage.{end}
use xsync.Upload.Tracking.{Stage, stage_write, stage_truncate}
use xsync.Store.Error.{Error, Result, ok, err}
use xsync.Store.Delete.{is_some}
use xsync.Store.Publish.{ObjectMeta}
use xsync.Store.Handle.{
  AppendMode, undecided, relative, absolute, OpenMode, UploadHandle, Base, size_of, Os, Session,
  put_file, wait_n, sent, start_fresh, adopt, resolve,
}

unfoldable pub is_appending : OpenMode → Bool
is_appending OpenMode.appending = true
is_appending _ = false

-- The first write decides how a client counts.
decide : UploadHandle → ℕ → AppendMode → AppendMode
decide h off undecided = if ltb 0 h.base_size && ltb off h.base_size then relative else absolute
decide h off mode = mode

shift : AppendMode → ℕ → ℕ → ℕ
shift relative base off = off + base
shift _ base off = off

unfoldable pub append_offset : UploadHandle → ℕ → UploadHandle × ℕ
unfolding decide shift
append_offset h off =
    let mode = decide h off h.append_mode in
    (record h { append_mode = mode }, shift mode h.base_size off)

-- CheckCritical for a server-side upload, WaitN for any other.
unfoldable pub gate_answer : Os → Bool → ℕ → Result (Unit {0})
unfolding wait_n
gate_answer os unmetered n = elim os.gate [
  | none ↦ ok tt
  | some g ↦ if unmetered then check_critical g.controller else wait_n g n
]

unfoldable pub find_at_least : List Base → ℕ → Option Base
find_at_least [] size = none
find_at_least (c ∷ cs) size =
    let rest = find_at_least cs size in if leb size (size_of c) then some c else rest

-- if h.failed == nil { h.failed = err }
unfoldable pub keep_first : Option Error → Error → Option Error
keep_first none e = some e
keep_first (some first) e = some first

module _ ⦃bolt : Bolt⦄ where
  abbrev pub break_with : Session → Error → Session
  break_with s e = record s { h = record s.h { failed = some e; fatal = true } }

  abbrev pub note_failure : Session → Error → Session
  note_failure s e = record s { h = record s.h { failed = some e } }

  -- The open file, its coverage and its hasher after an edit.
  abbrev pub put_stage : Session → Bytes → Stage → Session
  put_stage s name st = record s {
    disk = put_file s.disk name st.content;
    h = record s.h { cov = st.cov; hasher = st.hasher };
  }

  -- h.file.WriteAt and what follows it: the number of bytes written, and the error.
  unfoldable pub raw_write : Os → Bytes → ℕ → Session → Session × ℕ × Option Error
  unfolding sent put_file stage_write
  raw_write os p off s = elim s.h.file [
    | none ↦ (note_failure s Error.other, 0, some Error.other)
    | some name ↦ elim (s.disk name) [
      | none ↦ (note_failure s Error.other, 0, some Error.other)
      | some content ↦
          let taken = sent os.wrote p in
          let staged : Stage = record { content = content; cov = s.h.cov; hasher = s.h.hasher } in
          let s' = put_stage s name (stage_write staged taken off) in
          if is_some os.wrote
          then (note_failure s' Error.other, length taken, some Error.other)
          else (s', length taken, none)
    ]
  ]

  -- `writeLocked` from the translation of the offset on.
  unfoldable pub gated_write : Os → Bytes → ℕ → Bool → Session → Session × ℕ × Option Error
  unfolding append_offset gate_answer raw_write
  gated_write os p off translate s =
      let (h', off') = if translate then append_offset s.h off else (s.h, off) in
      let s' : Session = record s { h = h' } in
      elim (gate_answer os h'.unmetered (length p)) [
        | err e ↦ (note_failure s' e, 0, some e)
        | ok _ ↦ raw_write os p off' s'
      ]

  module _ (root : Bytes) (text : Error → Bytes) where
    -- if !h.resolved { h.resolve(off) }
    unfoldable pub resolved_at : Os → ℕ → Session → Session × Result (Unit {0})
    unfolding resolve
    resolved_at os off s = if s.h.resolved then (s, ok tt) else resolve root text os off s

    unfoldable pub write_locked : Os → Bytes → ℤ → Bool → Session → Session × ℕ × Option Error
    unfolding resolved_at gated_write
    write_locked os p off translate s =
        if s.h.closed then (s, 0, some Error.other) else elim s.h.failed [
          | some e ↦ (s, 0, some e)
          | none ↦ elim off [
            | negsuc n ↦ (s, 0, some Error.invalid_offset)
            | pos n ↦
                let (s', r) = resolved_at os n s in
                elim r [
                  | err e ↦ (break_with s' e, 0, some e)
                  | ok _ ↦ gated_write os p n translate s'
                ]
          ]
        ]

    unfoldable pub handle_write_at : Os → Bytes → ℤ → Session → Session × ℕ × Option Error
    unfolding write_locked is_appending
    handle_write_at os p off s = write_locked os p off (is_appending s.h.mode) s

    -- At the end of the data.
    unfoldable pub append_write : Os → Bytes → Session → Session × ℕ × Option Error
    unfolding write_locked
    append_write os p s = write_locked os p (pos (if s.h.resolved then end s.h.cov else 0)) false s

    unfoldable pub resolved_for : Os → ℕ → Session → Session × Result (Unit {0})
    unfolding start_fresh find_at_least adopt
    resolved_for os size s =
        if s.h.resolved
        then (s, ok tt)
        else if size == 0
        then start_fresh root text os s
        else elim (find_at_least s.h.candidates size) [
          | none ↦ (s, err Error.invalid_offset)
          | some c ↦ adopt root text os c s
        ]

    -- h.file.Truncate and what follows it.
    unfoldable pub raw_truncate : Os → ℕ → Session → Session × Option Error
    unfolding put_file stage_truncate
    raw_truncate os size s = elim s.h.file [
      | none ↦ (note_failure s Error.other, some Error.other)
      | some name ↦ elim (s.disk name) [
        | none ↦ (note_failure s Error.other, some Error.other)
        | some content ↦
            let staged : Stage = record { content = content; cov = s.h.cov; hasher = s.h.hasher } in
            let s' = put_stage s name (stage_truncate staged size) in
            if os.truncate_ok
            then (record s' { h = record s'.h { base_size = min s.h.base_size size } }, none)
            else (note_failure s Error.other, some Error.other)
      ]
    ]

    unfoldable pub truncate_handle : Os → ℤ → Session → Session × Option Error
    unfolding resolved_for raw_truncate
    truncate_handle os size s = if s.h.closed then (s, some Error.other) else elim size [
      | negsuc n ↦ (s, some Error.invalid_offset)
      | pos n ↦
          let (s', r) = resolved_for os n s in
          elim r [ err e ↦ (break_with s' e, some e) | ok _ ↦ raw_truncate os n s' ]
    ]

  unfoldable pub transfer_error : Error → Session → Session
  unfolding keep_first
  transfer_error e s = record s { h = record s.h { failed = keep_first s.h.failed e } }

  unfoldable pub fail_handle : Error → Session → Session
  fail_handle e s = break_with s e

  unfoldable pub set_object_meta : ObjectMeta → Session → Session
  set_object_meta m s = record s { h = record s.h { meta = some m } }
