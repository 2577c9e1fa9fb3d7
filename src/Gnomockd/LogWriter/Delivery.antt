-- ===== src/Gnomockd/LogWriter/Delivery.antt =====
-- What the log writer delivers, and when.
use mathlib.Core.List.{append_assoc}
use gnomock.Base.{
  none, some, [], ◌∷◌, List, Text, ◌≡◌, length, ◌≢◌, ◌<◌, ◌++◌, ◌⊎◌, sym, arith, inl, inr, refl, ap,
  true, ◌∙◌,
}
use gnomock.Gnomockd.LogWriter.{
  Pipe, Scanner, sending, stopped, collecting, max_scan_token_size, leaving, Step, write, gone,
  close_done, scan, stop_long, stop_closed, receive, receive_closed, finish, close_pipe, initial,
  Reached, next, here,
}
use mathlib.Core.Path.{subst}

-- No line is too long for the scanner.
abbrev pub AllShort : List Text → Type 0
AllShort [] = Unit
AllShort (line ∷ lines) = (length line < max_scan_token_size) × AllShort lines

-- The line that is on its way to the collector.
abbrev in_flight : Scanner → List Text
in_flight (sending line) = line ∷ []
in_flight _ = []

-- The collected lines, those on their way and those not read are the written lines, in order.
data Collects (p : Pipe) : Type 0 where
  before :
      (logs : List Text)
      → p.collector ≡ collecting logs
      → p.scanner ≢ stopped
      → p.all_logs ≡ none
      → logs ++ (in_flight p.scanner ++ p.unread) ≡ p.written
      → Collects p
  after :
      (logs rest : List Text)
      → (p.collector ≡ leaving) ⊎ (p.collector ≡ gone)
      → p.all_logs ≡ some logs
      → logs ++ rest ≡ p.written
      → Collects p

AllShort-append : (xs ys : List Text) → AllShort (xs ++ ys) → AllShort xs × AllShort ys
AllShort-append [] ys h = (tt, h)
AllShort-append (x ∷ xs) ys (s, h) = let (hx, hy) = AllShort-append xs ys h in ((s, hx), hy)

Step-AllShort : {p q : Pipe} → Step p q → AllShort q.written → AllShort p.written
Step-AllShort (write p line live) h = (AllShort-append p.written (line ∷ []) h).0
Step-AllShort (close_done p) h = h
Step-AllShort (scan p line rest a b c) h = h
Step-AllShort (stop_long p line rest a b c) h = h
Step-AllShort (stop_closed p a b) h = h
Step-AllShort (receive p line logs a b) h = h
Step-AllShort (receive_closed p logs a b) h = h
Step-AllShort (finish p logs a b) h = h
Step-AllShort (close_pipe p a) h = h

-- An unread line is a written line.
no_long :
    (p : Pipe) (logs rest : List Text) (line : Text)
    → AllShort p.written
    → logs ++ (in_flight p.scanner ++ p.unread) ≡ p.written
    → p.unread ≡ line ∷ rest
    → length line < max_scan_token_size
no_long p logs rest line short all unread =
    let h : AllShort (logs ++ (in_flight p.scanner ++ p.unread)) = subst AllShort (sym all) short in
    let h' = (AllShort-append logs (in_flight p.scanner ++ p.unread) h).1 in
    let h'' = (AllShort-append (in_flight p.scanner) p.unread h').1 in (subst AllShort unread h'').0

Step-Collects : {p q : Pipe} → Step p q → AllShort q.written → Collects p → Collects q
Step-Collects (write p line live) short (before logs c s n e) = before logs c s n (
    ap (λ x. logs ++ x) (sym (append_assoc (in_flight p.scanner) p.unread (line ∷ [])))
    ∙ sym (append_assoc logs (in_flight p.scanner ++ p.unread) (line ∷ []))
    ∙ ap (λ x. x ++ line ∷ []) e)
Step-Collects (write p line live) short (after logs rest c a e) =
    after logs (rest ++ line ∷ []) c a
      (sym (append_assoc logs rest (line ∷ [])) ∙ ap (λ x. x ++ line ∷ []) e)
Step-Collects (close_done p) short (before logs c s n e) = before logs c s n e
Step-Collects (close_done p) short (after logs rest c a e) = after logs rest c a e
Step-Collects (scan p line rest a b l) short (before logs c s n e) =
    before logs c (ground arith) n (ground arith)
Step-Collects (scan p line rest a b l) short (after logs more c d e) = after logs more c d e
Step-Collects (stop_long p line rest a b l) short (before logs c s n e) =
    absurd (omega (arith, no_long p logs rest line short e b))
Step-Collects (stop_long p line rest a b l) short (after logs more c d e) = after logs more c d e
Step-Collects (stop_closed p a b) short (before logs c s n e) = absurd (ground arith)
Step-Collects (stop_closed p a b) short (after logs rest c d e) = after logs rest c d e
Step-Collects (receive p line got a b) short (before logs c s n e) =
    before (got ++ line ∷ []) refl (ground arith) n
      (append_assoc got (line ∷ []) p.unread ∙ ground arith)
Step-Collects (receive p line got a b) short (after logs rest c d e) = absurd (ground arith)
Step-Collects (receive_closed p got a b) short (before logs c s n e) = absurd (ground arith)
Step-Collects (receive_closed p got a b) short (after logs rest c d e) = absurd (ground arith)
Step-Collects (finish p got a b) short (before logs c s n e) =
    after got (in_flight p.scanner ++ p.unread) (inl refl) refl (ground arith)
Step-Collects (finish p got a b) short (after logs rest c d e) = absurd (ground arith)
Step-Collects (close_pipe p a) short (before logs c s n e) = absurd (ground arith)
Step-Collects (close_pipe p a) short (after logs rest c d e) = after logs rest (inr refl) d e

Reached-Collects : {p : Pipe} → Reached p → AllShort p.written → Collects p
unfolding initial
Reached-Collects here short = before [] refl (ground arith) refl refl
Reached-Collects (next r st) short =
    Step-Collects st short (Reached-Collects r (Step-AllShort st short))

-- In every state that the log writer comes to while every written line is short enough for the
-- scanner, the logs that startHandler can receive are the first of the written lines, complete and
-- in the order of writing.
pub delivered-Reached :
    (p : Pipe) (logs : List Text)
    → Reached p
    → AllShort p.written
    → p.all_logs ≡ some logs
    → (rest : List Text) × (logs ++ rest ≡ p.written)
delivered-Reached p logs r short e = elim (Reached-Collects r short) [
  | before got c s n all ↦ absurd (ground arith)
  | after got rest c a all ↦ (rest, ground arith)
]

-- Whatever was written: until the collector leaves its loop it has not sent anything, and then it
-- has.
IsSent : Pipe → Type 0
IsSent p =
    ((logs : List Text) × (p.collector ≡ collecting logs))
    ⊎ ((logs : List Text) × (p.all_logs ≡ some logs))

Step-IsSent : {p q : Pipe} → Step p q → IsSent p → IsSent q
unfolding IsSent
Step-IsSent (write p line live) s = s
Step-IsSent (close_done p) s = s
Step-IsSent (scan p line rest a b c) s = s
Step-IsSent (stop_long p line rest a b c) s = s
Step-IsSent (stop_closed p a b) s = s
Step-IsSent (receive p line logs a b) s = inl (logs ++ line ∷ [], refl)
Step-IsSent (receive_closed p logs a b) s = inl (logs ++ [] ∷ [], refl)
Step-IsSent (finish p logs a b) s = inr (logs, refl)
Step-IsSent (close_pipe p a) (inl (logs, e)) = absurd (ground arith)
Step-IsSent (close_pipe p a) (inr s) = inr s

Reached-IsSent : {p : Pipe} → Reached p → IsSent p
unfolding IsSent initial
Reached-IsSent here = inl ([], refl)
Reached-IsSent (next r st) = Step-IsSent st (Reached-IsSent r)

-- Once `done` is closed, startHandler never waits for a state that cannot come: in every state that
-- the log writer comes to, allLogs holds logs already or the collector can send them in its next
-- step, whatever the scanner and the container do.
pub Reached-finish :
    (p : Pipe)
    → Reached p
    → p.done ≡ true
    → (q : Pipe) × (logs : List Text) × ((q ≡ p) ⊎ Step p q) × (q.all_logs ≡ some logs)
unfolding IsSent
Reached-finish p r d = elim (Reached-IsSent r) [
  | inl (logs, e) ↦
      (record p { collector = leaving; all_logs = some logs }, logs, inr (finish p logs d e), refl)
  | inr (logs, e) ↦ (p, logs, inl refl, e)
]
