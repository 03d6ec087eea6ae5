-- ===== src/Gday/Program.antt =====
-- `main` of gday/src/main.rs. What the peer sends is an argument, as the cleartext that the encrypted
-- reader gives.
pub mod Unmet
mod Tests
use gday_old.Base.{ℕ, Option, none, some, List, [], ◌∷◌}
use gday_old.Base.Outcome.{Outcome, returns, exits, panics, Result, ok, err}
use gday_old.Base.Text.{Bytes}
use gday_old.Chat.Protocol.{LocalFileMeta, Codec}
use gday_old.Chat.Terminal.{Lines, Ending, chats, ends}
use gday_old.Chat.Offer.{FileSystem, Walk, found, failed, panicked, unfinished, confirm_send}
use gday_old.Chat.Run
use gday_old.Chat.Run.{Ran, creator_run, not_creator_run}
use gday_old.Gday.{World, Process, goes_on, exited, aborted, stuck, ◌>>=◌, start_room, join_room}

pub data Commands : Type 0 where
  send : List Bytes → Commands
  chat : Commands
  join : Bytes → Commands

-- The file system, with the fuel for the walk through it, the answer to the question of
-- `confirm_send`, and what the run of gday_chat meets.
pub record Local : Type 0 where
  pub file_system : FileSystem
  pub fuel : ℕ
  pub answer : Result ℕ Bytes
  pub session : Run.World

abbrev pub walked : {A : Type 0} → Walk A → Process A
walked (found a) = goes_on a
walked (failed e) = exited 1
walked panicked = aborted
walked unfinished = stuck

-- The process is in the chat, or has come to the end of `main`.
abbrev pub ran_to : Ran → Ending → Process Ran
ran_to r chats = goes_on r
ran_to r (ends (ok u)) = goes_on r
ran_to r (ends (err e)) = exited 1

abbrev pub ran : Outcome Ran → Process Ran
ran (returns r) = ran_to r r.ending
ran (exits n) = exited n
ran panics = aborted

module _ (codec : Codec) (lines : Lines) (w : World) (l : Local) (incoming : Bytes) where
  abbrev pub create_and_run : Option (List LocalFileMeta) → Process Ran
  create_and_run files =
      start_room w >>= λ _. ran (creator_run codec lines l.session incoming files)

  unfoldable pub main : Commands → Process Ran
  main (send paths) =
      walked (confirm_send l.file_system w.profile l.fuel l.answer paths) >>= λ files.
      create_and_run (some files)
  main chat = create_and_run none
  main (join password) =
      join_room w password >>= λ _. ran (not_creator_run codec lines l.session incoming)
