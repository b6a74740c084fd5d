-- ===== src/TermSig.antt =====
-- termSig.c: the signals whose handlers are kept, and the handler that runs the exit handlers of EPICS.
-- A handler is run by a thread while others may run it too, so its steps are those of `Step`; the
-- exit handlers, a call into EPICS base, change no signal handler.
mod Install
mod Restore
mod Tests
use iocsh_utilities.Base.{ℕ, ◌==◌, ◌≡◌, if◌then◌else◌, Bool, List, [], ◌∷◌, ◌++◌}

-- The handlers that the process had are numbers.
pub data Handler : Type 0 where
  original : ℕ → Handler
  term_sig_handler : Handler

-- Signals by their numbers in Linux, in the order of the source: SIGHUP, SIGINT, SIGPIPE, SIGALRM,
-- SIGTERM, SIGUSR1, SIGUSR2.
abbrev pub signals : List ℕ
signals = 1 ∷ 2 ∷ 13 ∷ 14 ∷ 15 ∷ 10 ∷ 12 ∷ []

-- `table` is what `sigaction` changes, `saved` the variables `old_handler_...`.
pub record Handlers : Type 0 where
  pub table : ℕ → Handler
  pub saved : ℕ → Handler

abbrev pub put : (ℕ → Handler) → ℕ → Handler → ℕ → Handler
put f sig h i = if i == sig then h else f i

-- `sigaction(sig, &sa, &old_handler_...)`.
abbrev pub install : ℕ → Handlers → Handlers
install sig h = record {
  table = put h.table sig term_sig_handler;
  saved = put h.saved sig (h.table sig);
}

unfoldable pub install_all : List ℕ → Handlers → Handlers
install_all [] h = h
install_all (sig ∷ sigs) h = install_all sigs (install sig h)

-- `termSigRegistrar`.
unfoldable pub term_sig_registrar : Handlers → Handlers
unfolding install_all
term_sig_registrar h = install_all signals h

-- `sigaction(sig, &old_handler_..., NULL)`.
abbrev pub restore : ℕ → Handlers → Handlers
restore sig h = record { table = put h.table sig (h.saved sig); saved = h.saved }

-- One run of `termSigHandler` for `sig`: the signals still to be restored.
pub record Run : Type 0 where
  pub sig : ℕ
  pub left : List ℕ

pub record Process : Type 0 where
  pub handlers : Handlers
  pub runs : List Run
  -- The signals that were raised again, the last one first.
  pub raised : List ℕ

pub data Step (p q : Process) : Type 0 where
  -- A signal whose handler is `termSigHandler` comes.
  enter :
      (sig : ℕ)
      → p.handlers.table sig ≡ term_sig_handler
      → q ≡ record {
        handlers = p.handlers;
        runs = record { sig = sig; left = signals } ∷ p.runs;
        raised = p.raised;
      }
      → Step p q
  -- A run restores its next signal.
  restores :
      (before after : List Run) (sig next : ℕ) (left : List ℕ)
      → p.runs ≡ before ++ (record { sig = sig; left = next ∷ left } ∷ after)
      → q ≡ record {
        handlers = restore next p.handlers;
        runs = before ++ (record { sig = sig; left = left } ∷ after);
        raised = p.raised;
      }
      → Step p q
  -- A run that has restored all calls the exit handlers and raises its signal again.
  raises :
      (before after : List Run) (sig : ℕ)
      → p.runs ≡ before ++ (record { sig = sig; left = [] } ∷ after)
      → q ≡ record { handlers = p.handlers; runs = before ++ after; raised = sig ∷ p.raised }
      → Step p q

pub data Reach (p : Process) : Process → Type 0 where
  at_start : Reach p p
  then_step : {q r : Process} → Reach p q → Step q r → Reach p r

-- `termSigHandler` alone, up to `epicsExitCallAtExits`.
unfoldable pub restore_all : List ℕ → Handlers → Handlers
restore_all [] h = h
restore_all (sig ∷ sigs) h = restore_all sigs (restore sig h)
