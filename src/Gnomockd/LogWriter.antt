-- ===== src/Gnomockd/LogWriter.antt =====
-- internal/gnomockd/start.go: setupLogWriter, its two goroutines, its pipe and its channels, as a
-- step relation.
pub mod Delivery
pub mod Leaks
use gnomock.Base.{
  none, some, ℕ, [], Text, List, ◌++◌, false, Bool, ◌∷◌, Option, true, ◌≡◌, length, ◌<◌, ◌≤◌, ◌≢◌,
}

-- The goroutine of the scanner: it reads a line, or waits until the line is received, or has closed
-- receivedLogLines.
pub data Scanner : Type 0 where
  scanning : Scanner
  sending : Text → Scanner
  stopped : Scanner

-- The goroutine of the collector: it has these lines, or has left its loop, or has closed the pipe.
pub data Collector : Type 0 where
  collecting : List Text → Collector
  leaving gone : Collector

pub record Pipe : Type 0 where
  -- every line that was written so far, and those that the scanner has not read
  pub written : List Text
  pub unread : List Text
  pub scanner : Scanner
  pub collector : Collector
  -- the channel `done` is closed
  pub done : Bool
  -- what allLogs holds
  pub all_logs : Option (List Text)

-- bufio.MaxScanTokenSize: a longer line ends the scanner.
abbrev pub max_scan_token_size : ℕ
max_scan_token_size = 65536

-- When setupLogWriter returns.
unfoldable pub initial : Pipe
initial = record {
  written = [];
  unread = [];
  scanner = scanning;
  collector = collecting [];
  done = false;
  all_logs = none;
}

pub data Step : Pipe → Pipe → Type 0 where
  -- the container logs a line; once the pipe is closed a write fails
  write :
      (p : Pipe) (line : Text)
      → p.collector ≢ gone
      → Step p (record p { written = p.written ++ line ∷ []; unread = p.unread ++ line ∷ [] })
  -- startHandler closes `started`
  close_done : (p : Pipe) → Step p (record p { done = true })
  -- scanner.Scan() is true, also for a line that the scanner has buffered when the pipe is closed
  scan :
      (p : Pipe) (line : Text) (rest : List Text)
      → p.scanner ≡ scanning
      → p.unread ≡ line ∷ rest
      → length line < max_scan_token_size
      → Step p (record p { scanner = sending line; unread = rest })
  -- scanner.Scan() is false: the line is too long, or the pipe is closed
  stop_long :
      (p : Pipe) (line : Text) (rest : List Text)
      → p.scanner ≡ scanning
      → p.unread ≡ line ∷ rest
      → max_scan_token_size ≤ length line
      → Step p (record p { scanner = stopped })
  stop_closed :
      (p : Pipe)
      → p.scanner ≡ scanning
      → p.collector ≡ gone
      → Step p (record p { scanner = stopped })
  -- the collector receives what the scanner sends
  receive :
      (p : Pipe) (line : Text) (logs : List Text)
      → p.scanner ≡ sending line
      → p.collector ≡ collecting logs
      → Step p (record p { scanner = scanning; collector = collecting (logs ++ line ∷ []) })
  -- a closed channel gives the empty text at once
  receive_closed :
      (p : Pipe) (logs : List Text)
      → p.scanner ≡ stopped
      → p.collector ≡ collecting logs
      → Step p (record p { collector = collecting (logs ++ [] ∷ []) })
  -- `done` is closed: the logs are sent, and allLogs has room for them
  finish :
      (p : Pipe) (logs : List Text)
      → p.done ≡ true
      → p.collector ≡ collecting logs
      → Step p (record p { collector = leaving; all_logs = some logs })
  -- the deferred function
  close_pipe : (p : Pipe) → p.collector ≡ leaving → Step p (record p { collector = gone })

pub data Steps (p : Pipe) : Pipe → Type 0 where
  here : Steps p p
  next : {q r : Pipe} → Steps p q → Step q r → Steps p r

-- The states of a log writer.
abbrev pub Reached : Pipe → Type 0
Reached p = Steps initial p
