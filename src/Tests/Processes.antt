-- ===== src/Tests/Processes.antt =====
-- Witnesses for the log writer of the server and for the cleaner.
use gnomock.Base.{
  ℕ, zero, suc, length, false, [], ◌∷◌, none, some, lit, Text, List, ◌≡◌, ◌++◌, true, refl, inl,
  arith, ◌⊎◌, has_prefix,
}
use gnomock.Gnomockd.LogWriter
use gnomock.Gnomockd.LogWriter.{
  Pipe, Step, Steps, Reached, scanning, sending, stopped, collecting, leaving, gone,
}
use gnomock.Gnomockd.LogWriter.Delivery.{delivered-Reached, Reached-finish}
use gnomock.Gnomockd.LogWriter.Leaks.{IsLost, Steps-IsLost, long_line-Reached, blank_lines}
use gnomock.Cleaner
use gnomock.Cleaner.{
  System, Handler, update, moved, container_of, Happened, Event, requested, stop_called,
  stop_succeeded, canceled, waiting, satisfied, running, exited, sync_path,
}
use gnomock.Cleaner.Requests.{stop_called-requested}
use gnomock.Cleaner.Stops.{CanStop, requested-CanStop}
use gnomock.Cleaner.Halts.{Outcome, Reached-Outcome}
use gnomock.Base.FilePaths.{trim_prefix, drop_prefix}

-- Two lines are written, the first is received, and the second is on its way when `done` is closed.
abbrev two_lines : Pipe
two_lines = record {
  written = lit "a" ∷ lit "b" ∷ [];
  unread = [];
  scanner = sending (lit "b");
  collector = collecting (lit "a" ∷ []);
  done = true;
  all_logs = none;
}

abbrev after_two : Pipe
after_two = record two_lines { collector = leaving; all_logs = some (lit "a" ∷ []) }

abbrev line : Pipe → Text → Pipe
line p l = record p { written = p.written ++ l ∷ []; unread = p.unread ++ l ∷ [] }

start : Steps LogWriter.initial two_lines
unfolding LogWriter.initial lit
start =
    let p0 = LogWriter.initial in
    let p1 = line p0 (lit "a") in
    let p2 = line p1 (lit "b") in
    let p3 = record p2 { scanner = sending (lit "a"); unread = lit "b" ∷ [] } in
    let p4 = record p3 { scanner = scanning; collector = collecting (lit "a" ∷ []) } in
    let p5 = record p4 { scanner = sending (lit "b"); unread = [] } in
    let s1 = LogWriter.next LogWriter.here (LogWriter.write p0 (lit "a") (λ e. ground arith)) in
    let s2 = LogWriter.next s1 (LogWriter.write p1 (lit "b") (λ e. ground arith)) in
    let s3 =
      LogWriter.next s2 (LogWriter.scan p2 (lit "a") (lit "b" ∷ []) refl refl (omega arith)) in
    let s4 = LogWriter.next s3 (LogWriter.receive p3 (lit "a") [] refl refl) in
    let s5 = LogWriter.next s4 (LogWriter.scan p4 (lit "b") [] refl refl (omega arith)) in
    LogWriter.next s5 (LogWriter.close_done p5)

finished : Steps LogWriter.initial after_two
finished = LogWriter.next start (LogWriter.finish two_lines (lit "a" ∷ []) refl refl)

delivered-Reached_example : (rest : List Text) × ((lit "a" ∷ []) ++ rest ≡ after_two.written)
unfolding lit
delivered-Reached_example =
    delivered-Reached after_two (lit "a" ∷ []) finished (omega arith, (omega arith, tt)) refl

Reached-finish_example :
    (q : Pipe) × (logs : List Text) × ((q ≡ two_lines) ⊎ Step two_lines q)
    × (q.all_logs ≡ some logs)
Reached-finish_example = Reached-finish two_lines start refl

Steps-IsLost_example : IsLost (lit "b") (record after_two { collector = gone })
Steps-IsLost_example =
    Steps-IsLost {p = after_two}
      (LogWriter.next LogWriter.here (LogWriter.close_pipe after_two refl)) (refl, inl refl)

zeros : ℕ → Text
zeros zero = []
zeros (suc n) = 0 ∷ zeros n

length-zeros : (n : ℕ) → length (zeros n) ≡ n
unfolding zeros
length-zeros zero = refl
length-zeros (suc n) = ground (arith, length-zeros n)

abbrev long_line : Text
long_line = zeros 65536

-- The state with two empty lines that were never written.
abbrev two_blanks : Pipe
two_blanks = record {
  written = long_line ∷ [];
  unread = long_line ∷ [];
  scanner = stopped;
  collector = collecting (blank_lines 2);
  done = false;
  all_logs = none;
}

long_line-Reached_example : Reached two_blanks
long_line-Reached_example = long_line-Reached long_line 2 (omega (arith, length-zeros 65536))

-- A request comes in, its client goes away, and the container is stopped.
abbrev c_path : Text
c_path = sync_path ++ lit "c"

abbrev cid : Text
cid = container_of c_path

abbrev arrived : System
arrived = moved Cleaner.initial 1 (Cleaner.entering c_path) (requested 1 c_path ∷ [])

abbrev connected : System
connected = record (moved arrived 1 (Cleaner.hanging cid) []) { watcher = satisfied }

abbrev client_gone : System
client_gone = moved connected 1 (Cleaner.released cid) (canceled 1 ∷ [])

abbrev ended : System
ended = moved client_gone 1 (Cleaner.stopping cid) (stop_called 1 cid ∷ [])

abbrev killed : System
killed = record ended { process = exited 0; log = stop_succeeded 1 cid ∷ ended.log }

run_arrived : Cleaner.Reached arrived
unfolding Cleaner.initial has_prefix lit
run_arrived = Cleaner.next Cleaner.here (Cleaner.arrive Cleaner.initial 1 c_path refl refl refl)

run_gone : Cleaner.Reached client_gone
unfolding Cleaner.initial
run_gone =
    Cleaner.next (Cleaner.next run_arrived (Cleaner.connect arrived 1 c_path refl refl refl))
      (Cleaner.cancel connected 1 cid refl refl)

run_ended : Cleaner.Reached ended
unfolding Cleaner.initial
run_ended = Cleaner.next run_gone (Cleaner.call_stop client_gone 1 cid refl refl)

run_killed : Cleaner.Reached killed
unfolding Cleaner.initial
run_killed = Cleaner.next run_ended (Cleaner.stop_ok ended 1 cid refl refl)

stop_called-requested_example :
    Happened (requested 1 (lit "/sync/" ++ lit "c")) ended.log × Happened (canceled 1) ended.log
unfolding Cleaner.initial container_of trim_prefix has_prefix drop_prefix lit
stop_called-requested_example = stop_called-requested ended 1 (lit "c") run_ended (inl refl)

requested-CanStop_example : CanStop arrived 1 cid
unfolding Cleaner.initial
requested-CanStop_example = requested-CanStop arrived 1 cid refl refl

Reached-Outcome_example : Outcome killed.handlers killed.log (exited 0)
unfolding Cleaner.initial
Reached-Outcome_example = Reached-Outcome killed 0 run_killed refl
