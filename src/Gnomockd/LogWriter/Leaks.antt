-- ===== src/Gnomockd/LogWriter/Leaks.antt =====
-- What the log writer leaves behind.
use mathlib.Core.List.{append_assoc, append-nil}
use gnomock.Base.{
  none, [], ◌∷◌, ℕ, Text, ◌≡◌, arith, List, ◌⊎◌, ◌++◌, suc, inl, zero, inr, refl, ap, ◌∙◌, ◌≤◌, sym,
  length, false,
}
use gnomock.Gnomockd.LogWriter.{
  Pipe, sending, stopped, collecting, leaving, gone, Step, write, close_done, scan, stop_long,
  stop_closed, receive, receive_closed, finish, close_pipe, Steps, here, next, initial,
  max_scan_token_size, Reached,
}
use mathlib.Core.Path.{subst}

-- The scanner sends a line, and nobody will receive it.
abbrev pub IsLost : Text → Pipe → Type 0
IsLost line p = (p.scanner ≡ sending line) × ((p.collector ≡ leaving) ⊎ (p.collector ≡ gone))

Step-IsLost : {line : Text} {p q : Pipe} → Step p q → IsLost line p → IsLost line q
Step-IsLost (write p l live) s = s
Step-IsLost (close_done p) s = s
Step-IsLost (scan p l rest a b c) (s, t) = absurd (ground arith)
Step-IsLost (stop_long p l rest a b c) (s, t) = absurd (ground arith)
Step-IsLost (stop_closed p a b) (s, t) = absurd (ground arith)
Step-IsLost (receive p l logs a b) (s, t) = absurd (ground arith)
Step-IsLost (receive_closed p logs a b) (s, t) = absurd (ground arith)
Step-IsLost (finish p logs a b) (s, t) = (s, inl refl)
Step-IsLost (close_pipe p a) (s, t) = (s, inr refl)

-- Once the collector has left its loop while the scanner sends a line, the scanner sends that line
-- for ever: closing the pipe does not end its goroutine.
pub Steps-IsLost : {line : Text} {p q : Pipe} → Steps p q → IsLost line p → IsLost line q
Steps-IsLost here s = s
Steps-IsLost (next r st) s = Step-IsLost st (Steps-IsLost r s)

-- As many empty lines.
abbrev pub blank_lines : ℕ → List Text
blank_lines zero = []
blank_lines (suc n) = [] ∷ blank_lines n

Steps-trans : {p q r : Pipe} → Steps p q → Steps q r → Steps p r
Steps-trans a here = a
Steps-trans a (next b st) = next (Steps-trans a b) st

blank_lines-Steps :
    (n : ℕ) (p : Pipe) (logs : List Text)
    → p.scanner ≡ stopped
    → p.collector ≡ collecting logs
    → Steps p (record p { collector = collecting (logs ++ blank_lines n) })
blank_lines-Steps zero p logs s c =
    subst (Steps p)
      (ap (λ k. record p { collector = k }) (c ∙ ap collecting (sym (append-nil logs)))) here
blank_lines-Steps (suc n) p logs s c =
    let step = receive_closed p logs s c in
    let more =
      blank_lines-Steps n (record p { collector = collecting (logs ++ [] ∷ []) }) (logs ++ [] ∷ [])
        s refl in
    Steps-trans (next here step) (
      subst (Steps _)
        (ap (λ l. record p { collector = collecting l })
          (append_assoc logs ([] ∷ []) (blank_lines n)))
        more)

-- One line that is too long ends the scanner. From then on, before `done` is closed, the collector
-- can collect any number of empty lines, although nothing else is written.
pub long_line-Reached :
    (line : Text) (n : ℕ)
    → max_scan_token_size ≤ length line
    → Reached (record {
      written = line ∷ [];
      unread = line ∷ [];
      scanner = stopped;
      collector = collecting (blank_lines n);
      done = false;
      all_logs = none;
    })
unfolding initial
long_line-Reached line n long =
    let wrote = write initial line (λ e. ground arith) in
    let ended =
      stop_long (record initial { written = line ∷ []; unread = line ∷ [] }) line [] refl refl
        long in
    Steps-trans (next (next here wrote) ended) (blank_lines-Steps n _ [] refl refl)
