-- ===== src/Common/Log/Lines.antt =====
-- No line of the log goes to a closed file, and none is lost.
use mathlib.Core.List.{append_assoc, append-nil}
use ride_hailing_system.Prelude.{
  ℕ, ◌≡◌, refl, sym, ap, ◌∙◌, arith, true, ◌==◌, Option, none, some, List, [], ◌∷◌, ◌++◌, map, done,
}
use ride_hailing_system.Common.Log.{
  Stream, stderr, file, Level, Line, LogState, is_open, LogName, unnamed, unopened, opened,
  log_init, clean_up, log_cleanup, stream_of, write_line, log_base, LogCall, init, cleanup, debug,
  log, log_call, run_log,
}

-- The file that the log goes to is open.
abbrev pub IsLive : Option Stream → List ℕ → Type 0
IsLive none files = Unit
IsLive (some stderr) files = Unit
IsLive (some (file handle)) files = is_open handle files ≡ true

-- The texts of the calls that log.
abbrev pub messages : List LogCall → List (List ℕ)
messages [] = []
messages (init name ∷ calls) = messages calls
messages (cleanup ∷ calls) = messages calls
messages (debug ∷ calls) = messages calls
messages (log level text ∷ calls) = text ∷ messages calls

-- `written` has been added to the lines of the log.
pub record IsLogged (texts : List (List ℕ)) (s s' : LogState) : Type 0 where
  pub live : IsLive s'.log_fp s'.open_files
  pub written : List Line
  pub added : s'.lines ≡ s.lines ++ written
  pub all : map (λ (l : Line). l.text) written ≡ texts

just_opened : (handle : ℕ) (files : List ℕ) → is_open handle (handle ∷ files) ≡ true
unfolding is_open
just_opened handle files = let same : (handle == handle) ≡ true = ground arith in rw same

log_init-IsLive :
    (name : LogName) (s : LogState) → IsLive (log_init name s).log_fp (log_init name s).open_files
unfolding log_init
log_init-IsLive unnamed s = tt
log_init-IsLive unopened s = tt
log_init-IsLive (opened handle) s = just_opened handle s.open_files

log_init_lines : (name : LogName) (s : LogState) → (log_init name s).lines ≡ s.lines
unfolding log_init
log_init_lines unnamed s = refl
log_init_lines unopened s = refl
log_init_lines (opened handle) s = refl

clean_up_lem :
    (fp : Option Stream) (s : LogState)
    → s.log_fp ≡ fp
    → IsLive (clean_up fp s).log_fp (clean_up fp s).open_files × ((clean_up fp s).lines ≡ s.lines)
unfolding clean_up
clean_up_lem none s e = (rw e tt, refl)
clean_up_lem (some stderr) s e = (rw e tt, refl)
clean_up_lem (some (file handle)) s e = (tt, refl)

-- A line is written to the stream.
abbrev logged : Stream → Level → List ℕ → LogState → LogState
logged stream level text s = record s {
  log_fp = some stream;
  lines = s.lines ++ (record { stream = stream; level = level; text = text } ∷ []);
}

log_base_lem :
    (level : Level) (text : List ℕ) (fp : Option Stream) (s : LogState)
    → IsLive fp s.open_files
    → (write_line (stream_of fp) level text s ≡ done (logged (stream_of fp) level text s))
      × IsLive (some (stream_of fp)) s.open_files
unfolding write_line stream_of
log_base_lem level text none s live = (refl, tt)
log_base_lem level text (some stderr) s live = (refl, tt)
log_base_lem level text (some (file handle)) s live = (rw live, live)

-- If the stream of the log is not a closed file, any sequence of calls of the log system ends
-- without a write to a closed file, the stream is still not a closed file, and exactly the texts of
-- the calls that log are added to the lines, in order.
pub run_log-IsLogged :
    (calls : List LogCall) (s : LogState)
    → IsLive s.log_fp s.open_files
    → (s' : LogState) × (run_log calls s ≡ done s') × IsLogged (messages calls) s s'
unfolding run_log log_call log_base log_cleanup
run_log-IsLogged [] s live =
    (s, refl, record { live = live; written = []; added = sym (append-nil s.lines); all = refl })
run_log-IsLogged (init name ∷ calls) s live =
    let (s', e, r) = run_log-IsLogged calls (log_init name s) (log_init-IsLive name s) in
    (
      s',
      e,
      record {
        live = r.live;
        written = r.written;
        added = r.added ∙ ap (λ l. l ++ r.written) (log_init_lines name s);
        all = r.all;
      },
    )
run_log-IsLogged (cleanup ∷ calls) s live =
    let (live', same) = clean_up_lem s.log_fp s refl in
    let (s', e, r) = run_log-IsLogged calls (clean_up s.log_fp s) live' in
    (
      s',
      e,
      record {
        live = r.live;
        written = r.written;
        added = r.added ∙ ap (λ l. l ++ r.written) same;
        all = r.all;
      },
    )
run_log-IsLogged (debug ∷ calls) s live = run_log-IsLogged calls s live
run_log-IsLogged (log level text ∷ calls) s live =
    let stream = stream_of s.log_fp in
    let line : Line = record { stream = stream; level = level; text = text } in
    let (first, live') = log_base_lem level text s.log_fp s live in
    let (s', e, r) = run_log-IsLogged calls (logged stream level text s) live' in
    (
      s',
      rw first e,
      record {
        live = r.live;
        written = line ∷ r.written;
        added = r.added ∙ append_assoc s.lines (line ∷ []) r.written;
        all = ap (λ l. text ∷ l) r.all;
      },
    )
