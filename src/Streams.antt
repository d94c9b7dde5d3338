-- ===== src/Streams.antt =====
-- internal/io: the writers in memory. A buffer is the bytes that were written to it.
use macos_exec_kubelet.Base.{ℕ, Option, none, List, [], ◌∷◌, ◌++◌, Error, length, ◌≡◌, ap, sym}
use mathlib.Core.List.{append_assoc, append-nil}

-- DiscardWriteCloser, and BufferWriteCloser with the bytes of its buffer.
pub data WriteCloser : Type 0 where
  discard : WriteCloser
  buffer : List ℕ → WriteCloser

unfoldable pub new_buffer_write_closer : List ℕ → WriteCloser
new_buffer_write_closer buf = buffer buf

-- The methods of DiscardWriteCloser.
unfoldable pub discard_write : List ℕ → ℕ × Option Error
discard_write p = (length p, none)

unfoldable pub discard_close : Option Error
discard_close = none

-- Write: how many bytes were taken, the error, and the writer after it.
unfoldable pub write : List ℕ → WriteCloser → ℕ × Option Error × WriteCloser
unfolding discard_write
write p discard = let (n, e) = discard_write p in (n, e, discard)
write p (buffer buf) = (length p, none, buffer (buf ++ p))

unfoldable pub close : WriteCloser → Option Error × WriteCloser
unfolding discard_close
close discard = (discard_close, discard)
close (buffer buf) = (none, buffer buf)

pub data Use : Type 0 where
  writes : List ℕ → Use
  closes : Use

unfoldable pub after_use : WriteCloser → Use → WriteCloser
unfolding write close
after_use w (writes p) = (write p w).2
after_use w closes = (close w).1

unfoldable pub after_uses : WriteCloser → List Use → WriteCloser
unfolding after_use
after_uses w [] = w
after_uses w (u ∷ us) = after_uses (after_use w u) us

abbrev pub written : List Use → List ℕ
written [] = []
written (writes p ∷ us) = p ++ written us
written (closes ∷ us) = written us

-- A buffer holds what is written to it, in the order of the writes, and is closed to no write.
pub after_uses-written :
    (us : List Use) (buf : List ℕ)
    → after_uses (new_buffer_write_closer buf) us ≡ buffer (buf ++ written us)
unfolding after_uses new_buffer_write_closer
after_uses-written [] buf = ap buffer (sym (append-nil buf))
after_uses-written (writes p ∷ us) buf =
    rw (after_uses-written us (buf ++ p)) (ap buffer (append_assoc buf p _))
after_uses-written (closes ∷ us) buf = after_uses-written us buf
