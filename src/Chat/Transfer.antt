-- ===== src/Chat/Transfer.antt =====
-- gday_chat/src/file_transfer.rs: the accepted files, one behind the other on the stream. What a file
-- holds, and which file is created at a path or why none is, are arguments, and the stream is one
-- that does not fail; the progress bar is left out, but not the sum that it is made from.
pub mod Disk
pub mod Delivery
pub mod Progress
pub mod Cut
use gday_old.Base.{
  ℕ, ◌+◌, Option, none, some, Bool, true, false, List, [], ◌∷◌, ◌++◌, map, length, take, drop, ◌==◌,
  if◌then◌else◌,
}
use gday_old.Base.Outcome.{Outcome, returns, ◌>>=◌, Profile, add_u64, Result, ok, err}
use gday_old.Base.Text.{Bytes, same_text, codes}
use gday_old.Chat.Protocol.{FileMeta, LocalFileMeta}

-- RECEIVED_FILE_FOLDER.
abbrev pub received_file_folder : Bytes
received_file_folder = codes "gday_received/"

-- `Path::join`: an absolute path takes the place of the first.
unfoldable pub join : Bytes → Bytes → Bytes
join folder [] = folder
join folder (c ∷ path) = if c == b'/' then c ∷ path else folder ++ c ∷ path

-- `iter().map(|meta| meta.size).sum()`.
unfoldable pub sum : Profile → List ℕ → ℕ → Outcome ℕ
sum p [] acc = returns acc
sum p (size ∷ sizes) acc = add_u64 p acc size >>= sum p sizes

-- What `send_files` has written, and how it ends.
pub record Sent : Type 0 where
  pub written : Bytes
  pub result : Result ℕ (Unit {0})

-- The loop of `send_files`: each file is copied whole.
unfoldable pub send_each : (Bytes → Result ℕ Bytes) → List LocalFileMeta → Bytes → Sent
send_each open_file [] written = record { written = written; result = ok tt }
send_each open_file (meta ∷ metas) written = elim (open_file meta.local_path) [
  | err e ↦ record { written = written; result = err e }
  | ok s ↦ send_each open_file metas (written ++ s)
]

unfoldable pub send_files : Profile → (Bytes → Result ℕ Bytes) → List LocalFileMeta → Outcome Sent
send_files p open_file files = sum p (map (λ (meta : LocalFileMeta). meta.size) files) 0 >>= λ size.
    returns (send_each open_file files [])

-- A file on the disk; `name` is the one that the file system knows it by, whichever path leads to it.
pub record Saved : Type 0 where
  pub name : Bytes
  pub bytes : Bytes

-- The files on the disk that the run has made, oldest first, what it leaves in the stream, and how it
-- ends.
pub record Received : Type 0 where
  pub saved : List Saved
  pub rest : Bytes
  pub result : Result ℕ (Unit {0})

abbrev pub without : Bytes → List Saved → List Saved
without name [] = []
without name (file ∷ files) =
    let rest = without name files in if same_text file.name name then rest else file ∷ rest

-- `File::create` and the copy into the file: what it held before is gone.
abbrev pub save : Saved → List Saved → List Saved
save file saved = without file.name saved ++ file ∷ []

-- The loop of `receive_files`: at most `size` bytes are copied, fewer where the stream ends.
-- `create_file` says which file is created at a path, or how that or creating the folders fails.
unfoldable pub receive_each :
    (Bytes → Result ℕ Bytes) → List FileMeta → Bytes → List Saved → Received
receive_each create_file [] stream saved = record { saved = saved; rest = stream; result = ok tt }
receive_each create_file (meta ∷ metas) stream saved =
    elim (create_file (join received_file_folder meta.path)) [
      | err e ↦ record { saved = saved; rest = stream; result = err e }
      | ok name ↦
          receive_each create_file metas (drop meta.size stream)
            (save (record { name = name; bytes = take meta.size stream }) saved)
    ]

unfoldable pub receive_files :
    Profile → (Bytes → Result ℕ Bytes) → List FileMeta → Bytes → Outcome Received
receive_files p create_file files stream =
    sum p (map (λ (meta : FileMeta). meta.size) files) 0 >>= λ size.
    returns (receive_each create_file files stream [])

-- `FileMeta { path: file.public_path, size: file.size }` of `creator_run`.
abbrev pub to_meta : LocalFileMeta → FileMeta
to_meta file = record { path = file.public_path; size = file.size }
