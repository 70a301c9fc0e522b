-- ===== src/Common/Log.antt =====
-- src/common/log_system.c: the stream of the log, and the lines that go to it. The time and the
-- formatted text of a line are an argument. A write to a closed file is a crash. The warning about a
-- file that cannot be opened is no line of the log, and left out.
pub mod Lines
use ride_hailing_system.Prelude.{
  ℕ, ◌==◌, Bool, true, false, if◌then◌else◌, Option, none, some, List, [], ◌∷◌, ◌++◌, Exec, done,
  crash, ◌>>=◌,
}

pub data Stream : Type 0 where
  stderr : Stream
  file : ℕ → Stream

pub data Level : Type 0 where
  info warn error : Level

pub record Line : Type 0 where
  pub stream : Stream
  pub level : Level
  pub text : List ℕ

-- `log_fp`, where `none` is NULL; the files that are open; and the lines written so far.
pub record LogState : Type 0 where
  pub log_fp : Option Stream
  pub open_files : List ℕ
  pub lines : List Line

pub is_open : ℕ → List ℕ → Bool
is_open handle [] = false
is_open handle (other ∷ files) =
    let later = is_open handle files in if handle == other then true else later

-- `fclose`.
pub close_file : ℕ → List ℕ → List ℕ
close_file handle [] = []
close_file handle (other ∷ files) =
    let rest = close_file handle files in if handle == other then files else other ∷ rest

-- Without a name; with a name, where `fopen` fails; and with one that it opens.
pub data LogName : Type 0 where
  unnamed unopened : LogName
  opened : ℕ → LogName

pub log_init : LogName → LogState → LogState
log_init unnamed s = record s { log_fp = some stderr }
log_init unopened s = record s { log_fp = some stderr }
log_init (opened handle) s = record s {
  log_fp = some (file handle);
  open_files = handle ∷ s.open_files;
}

pub clean_up : Option Stream → LogState → LogState
clean_up none s = s
clean_up (some stderr) s = s
clean_up (some (file handle)) s = record s {
  log_fp = none;
  open_files = close_file handle s.open_files;
}

pub log_cleanup : LogState → LogState
log_cleanup s = clean_up s.log_fp s

-- `if (!log_fp) log_fp = stderr;`
pub stream_of : Option Stream → Stream
stream_of none = stderr
stream_of (some stream) = stream

pub write_line : Stream → Level → List ℕ → LogState → Exec LogState
write_line stream level text s =
    let s' = record s {
      log_fp = some stream;
      lines = s.lines ++ (record { stream = stream; level = level; text = text } ∷ []);
    } in
    elim stream [
      | stderr ↦ done s'
      | file handle ↦ if is_open handle s.open_files then done s' else crash
    ]

pub log_base : Level → List ℕ → LogState → Exec LogState
log_base level text s = write_line (stream_of s.log_fp) level text s

-- `log_debug` does nothing in a build without DEBUG.
pub data LogCall : Type 0 where
  init : LogName → LogCall
  cleanup debug : LogCall
  log : Level → List ℕ → LogCall

pub log_call : LogCall → LogState → Exec LogState
log_call (init name) s = done (log_init name s)
log_call cleanup s = done (log_cleanup s)
log_call debug s = done s
log_call (log level text) s = log_base level text s

pub run_log : List LogCall → LogState → Exec LogState
run_log [] s = done s
run_log (call ∷ calls) s = log_call call s >>= run_log calls
