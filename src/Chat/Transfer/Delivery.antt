-- ===== src/Chat/Transfer/Delivery.antt =====
-- What the sender and the receiver of gday_chat/src/file_transfer.rs do together.
use gday_old.Base.{
  ℕ, ◌+◌, ◌^◌, ◌<◌, ◌≡◌, refl, sym, ◌∙◌, ap, Bool, List, [], ◌∷◌, ◌++◌, append_assoc, append-nil,
  map, length, take-length-append, drop-length-append, All, arith,
}
use gday_old.Base.Outcome.{returns, Profile, Result, ok}
use gday_old.Base.Text.{Bytes}
use gday_old.Chat.Protocol.{FileMeta, LocalFileMeta}
use gday_old.Chat.Dialog.{accepted_files}
use gday_old.Chat.Dialog.Choice.{accepted_files-map, add_u64-small}
use gday_old.Chat.Transfer.Disk.{save_all, Distinct, save_all-Distinct}
use gday_old.Chat.Transfer.{
  received_file_folder, join, sum, send_each, send_files, Saved, receive_each, receive_files,
  to_meta,
}

module _ (open_file : Bytes → Result ℕ Bytes) (create_file : Bytes → Result ℕ Bytes) where
  -- A file that is on the sender's disk with the size that was offered, and that the receiver can
  -- create.
  pub record CanMove (file : LocalFileMeta) : Type 0 where
    pub bytes : Bytes
    pub opened : open_file file.local_path ≡ ok bytes
    pub size_eq : length bytes ≡ file.size
    pub name : Bytes
    pub created : create_file (join received_file_folder file.public_path) ≡ ok name

  abbrev pub AllMove : List LocalFileMeta → Type 0
  AllMove files = All CanMove files

  -- The files' bytes, one behind the other, and the files that are made of them.
  abbrev pub stream_of : (files : List LocalFileMeta) → AllMove files → Bytes
  stream_of [] _ = []
  stream_of (file ∷ files) (m, ms) = m.bytes ++ stream_of files ms

  abbrev pub saved_of : (files : List LocalFileMeta) → AllMove files → List Saved
  saved_of [] _ = []
  saved_of (file ∷ files) (m, ms) = record { name = m.name; bytes = m.bytes } ∷ saved_of files ms

  send_each-stream :
      (files : List LocalFileMeta) (ms : AllMove files) (written : Bytes)
      → send_each open_file files written
        ≡ record { written = written ++ stream_of files ms; result = ok tt }
  unfolding send_each
  send_each-stream [] ms written =
      ap (λ s. record { written = s; result = ok tt }) (sym (append-nil written))
  send_each-stream (file ∷ files) (m, ms) written =
      rw (m.opened, send_each)
        (send_each-stream files ms (written ++ m.bytes)
          ∙ ap (λ s. record { written = s; result = ok tt })
              (append_assoc written m.bytes (stream_of files ms)))

  receive_each-saved :
      (files : List LocalFileMeta) (ms : AllMove files) (rest : Bytes) (saved : List Saved)
      → receive_each create_file (map to_meta files) (stream_of files ms ++ rest) saved
        ≡ record { saved = save_all saved (saved_of files ms); rest = rest; result = ok tt }
  unfolding receive_each
  receive_each-saved [] ms rest saved = refl
  receive_each-saved (file ∷ files) (m, ms) rest saved =
      rw
        (
          m.created,
          sym m.size_eq,
          append_assoc m.bytes (stream_of files ms) rest,
          take-length-append m.bytes (stream_of files ms ++ rest),
          drop-length-append m.bytes (stream_of files ms ++ rest),
        )
        (receive_each-saved files ms rest _)

-- The sizes together.
abbrev pub total : List LocalFileMeta → ℕ
total [] = 0
total (file ∷ files) = file.size + total files

pub sum-total :
    (p : Profile) (files : List LocalFileMeta) (acc : ℕ)
    → acc + total files < 2 ^ 64
    → (sum p (map (λ (file : LocalFileMeta). file.size) files) acc ≡ returns (acc + total files))
unfolding sum
sum-total p [] acc h = ap returns (omega arith)
sum-total p (file ∷ files) acc h =
    rw (add_u64-small p acc file.size (omega arith))
      (sum-total p files (acc + file.size) (omega arith) ∙ ap returns (omega arith))

map-to_meta :
    (files : List LocalFileMeta)
    → map (λ (meta : FileMeta). meta.size) (map to_meta files)
      ≡ map (λ (file : LocalFileMeta). file.size) files
map-to_meta [] = refl
map-to_meta (file ∷ files) = ap (λ s. file.size ∷ s) (map-to_meta files)

-- Whatever list of answers the receiver sends, both sides pick the same files of an offer. If those
-- are as they were offered, can be created, no two of them as one file, and have sizes that fit
-- together in a u64, then what `send_files` writes becomes those files at `receive_files`, byte for
-- byte and all there at the end, and what follows in the stream is left there.
pub receive_files-send_files :
    (open_file : Bytes → Result ℕ Bytes) (create_file : Bytes → Result ℕ Bytes) (p p' : Profile)
    (files : List LocalFileMeta) (chosen : List Bool) (rest : Bytes)
    (ms : AllMove open_file create_file (accepted_files files chosen))
    → Distinct (saved_of open_file create_file (accepted_files files chosen) ms)
    → total (accepted_files files chosen) < 2 ^ 64
    → (written : Bytes) × (send_files p open_file (accepted_files files chosen)
        ≡ returns (record { written = written; result = ok tt }))
      × (receive_files p' create_file (accepted_files (map to_meta files) chosen) (written ++ rest)
          ≡ returns (record {
            saved = saved_of open_file create_file (accepted_files files chosen) ms;
            rest = rest;
            result = ok tt;
          }))
unfolding send_files receive_files
receive_files-send_files open_file create_file p p' files chosen rest ms distinct fits =
    let picked = accepted_files files chosen in
    (
      stream_of open_file create_file picked ms,
      rw (sum-total p picked 0 (omega arith))
          (ap returns (send_each-stream open_file create_file picked ms [])),
      rw
          (
            accepted_files-map to_meta files chosen,
            map-to_meta picked,
            sum-total p' picked 0 (omega arith),
          )
          (ap returns (
            receive_each-saved open_file create_file picked ms rest []
            ∙ ap (λ s. record { saved = s; rest = rest; result = ok tt })
                (save_all-Distinct (saved_of open_file create_file picked ms) distinct))),
    )
