-- ===== src/Ssh/Terminal.antt =====
-- internal/node/terminal.go and internal/node/exec.go: the streams of a call of exec, and the size
-- of its terminal. A stream is known by its name.
use macos_exec_kubelet.Base.{
  ℕ, Bool, false, ◌&&◌, not, String, Option, none, some, List, [], ◌∷◌, if◌then◌else◌, ◌==◌, nat_eq,
  string_eq,
}

-- api.TermSize
pub record TermSize : Type 0 where
  pub width : ℕ
  pub height : ℕ

-- ExecIO, without the channel of resize events: what a receive on it gives is an argument of the
-- functions that receive.
pub record ExecIo : Type 0 where
  pub tty : Bool
  pub stdin : Option String
  pub stdout : Option String
  pub stderr : Option String

unfoldable pub new_exec_io : Bool → Option String → Option String → Option String → ExecIo
new_exec_io tty stdin stdout stderr = record {
  tty = tty;
  stdin = stdin;
  stdout = stdout;
  stderr = stderr;
}

unfoldable pub discarding_exec_io : ExecIo
discarding_exec_io = record { tty = false; stdin = none; stdout = some "discard"; stderr = none }

abbrev default_terminal_type : String
default_terminal_type = "xterm-256color"

-- The argument is the variable TERM of the environment.
unfoldable pub get_terminal_type : String → String
get_terminal_type term = if term == "" then default_terminal_type else term

abbrev default_size : TermSize
default_size = record { width = 60; height = 120 }

abbrev or_default : Option TermSize → TermSize
or_default none = default_size
or_default (some size) = size

-- The height and the width, if neither is 0.
console_size_of : TermSize → Option (ℕ × ℕ)
console_size_of size =
    if not (size.width == 0) && not (size.height == 0) then some (size.height, size.width) else none

-- The last argument is the size that was received, or none if the context was done before. A closed
-- channel gives a size of zeros.
unfoldable pub get_console_size : Option ExecIo → Option TermSize → Option (ℕ × ℕ)
unfolding console_size_of
get_console_size none event = none
get_console_size (some attach) event =
    if not attach.tty then none else console_size_of (or_default event)

-- The calls of resizeFunc.
unfoldable pub handle_terminal_resizing : Option TermSize → List TermSize
handle_terminal_resizing none = []
handle_terminal_resizing (some size) = size ∷ []
