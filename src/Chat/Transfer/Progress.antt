-- ===== src/Chat/Transfer/Progress.antt =====
-- ProgressWrite of gday_chat/src/file_transfer.rs, the writer that tells a progress bar of each write.
-- What the inner writer answers is an argument, and the bar is the list of what it has been told.
use gday_old.Base.{ℕ, List, [], ◌∷◌, ◌++◌}
use gday_old.Encryption.Writer.{Poll, ready, pending, failed, invalid_data, panicked}

-- The calls of the bar that the code makes.
pub data BarCall : Type 0 where
  inc : ℕ → BarCall
  tick : BarCall

abbrev pub bar_call : Poll ℕ → BarCall
bar_call (ready num) = inc num
bar_call pending = tick
bar_call (failed e) = tick
bar_call invalid_data = tick
bar_call panicked = tick

-- `poll_write`, with the answer of the inner writer.
unfoldable pub poll_write_through : Poll ℕ → List BarCall → Poll ℕ × List BarCall
poll_write_through poll progress = (poll, progress ++ bar_call poll ∷ [])

-- `poll_flush` and `poll_shutdown`.
unfoldable pub poll_on : Poll (Unit {0}) → List BarCall → Poll (Unit {0}) × List BarCall
poll_on poll progress = (poll, progress)
