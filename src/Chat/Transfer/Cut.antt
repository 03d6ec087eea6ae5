-- ===== src/Chat/Transfer/Cut.antt =====
-- What `receive_files` of gday_chat/src/file_transfer.rs makes of any stream, one that ends too early
-- included.
use gday_old.Base.{
  ℕ, ◌+◌, ◌^◌, ◌<◌, ◌≡◌, ◌≢◌, some, refl, sym, ◌∙◌, ap, List, [], ◌∷◌, ◌++◌, map, take, drop,
  drop-drop, All, arith,
}
use gday_old.Base.Outcome.{returns, Profile, Result, ok}
use gday_old.Base.Text.{Bytes}
use gday_old.Chat.Protocol.{FileMeta}
use gday_old.Chat.Dialog.Choice.{total, add_u64-small}
use gday_old.Chat.Transfer.Disk.{save_all, held, IsNew, held_last}
use gday_old.Chat.Transfer.{
  received_file_folder, join, sum, Saved, Received, receive_each, receive_files,
}

abbrev pub destination : FileMeta → Bytes
destination meta = join received_file_folder meta.path

-- The file that is created for an offered one.
abbrev pub Created : (Bytes → Result ℕ Bytes) → FileMeta → Type 0
Created create_file meta = (name : Bytes) × (create_file (destination meta) ≡ ok name)

abbrev pub AllCreated : (Bytes → Result ℕ Bytes) → List FileMeta → Type 0
AllCreated create_file files = All (Created create_file) files

-- What each file gets of a stream, which may end too early.
abbrev pub cut_into :
    (create_file : Bytes → Result ℕ Bytes) (files : List FileMeta)
    → AllCreated create_file files
    → Bytes
    → List Saved
cut_into create_file [] cs stream = []
cut_into create_file (meta ∷ files) ((name, e), cs) stream =
    record { name = name; bytes = take meta.size stream }
    ∷ cut_into create_file files cs (drop meta.size stream)

abbrev pub bytes_of : List Saved → Bytes
bytes_of [] = []
bytes_of (file ∷ files) = file.bytes ++ bytes_of files

sum-metas :
    (p : Profile) (files : List FileMeta) (acc : ℕ)
    → acc + total files < 2 ^ 64
    → (sum p (map (λ (meta : FileMeta). meta.size) files) acc ≡ returns (acc + total files))
unfolding sum
sum-metas p [] acc h = ap returns (omega arith)
sum-metas p (meta ∷ files) acc h =
    rw (add_u64-small p acc meta.size (omega arith))
      (sum-metas p files (acc + meta.size) (omega arith) ∙ ap returns (omega arith))

receive_each-cut :
    (create_file : Bytes → Result ℕ Bytes) (files : List FileMeta)
    (cs : AllCreated create_file files) (stream : Bytes) (saved : List Saved)
    → receive_each create_file files stream saved ≡ record {
      saved = save_all saved (cut_into create_file files cs stream);
      rest = drop (total files) stream;
      result = ok tt;
    }
unfolding receive_each
receive_each-cut create_file [] cs stream saved = refl
receive_each-cut create_file (meta ∷ files) ((name, e), cs) stream saved =
    rw (e, receive_each)
      (receive_each-cut create_file files cs (drop meta.size stream) _
        ∙ ap
            (λ s. record {
              saved = save_all saved (cut_into create_file (meta ∷ files) ((name, e), cs) stream);
              rest = s;
              result = ok tt;
            })
            (drop-drop meta.size (total files) stream))

module _ (create_file : Bytes → Result ℕ Bytes) (name : Bytes) where
  -- No file is created as the one with the name.
  abbrev pub NoneIs : List FileMeta → Type 0
  NoneIs files = All (λ (meta : FileMeta). create_file (destination meta) ≢ ok name) files

  cut_into-IsNew :
      (files : List FileMeta) (cs : AllCreated create_file files) (stream : Bytes)
      → NoneIs files
      → IsNew (cut_into create_file files cs stream) name
  cut_into-IsNew [] cs stream h = tt
  cut_into-IsNew (meta ∷ files) ((name', e), cs) stream (h, hs) =
      (λ same. h (e ∙ ap ok same), cut_into-IsNew files cs (drop meta.size stream) hs)

  last_held :
      (before : List FileMeta) (meta : FileMeta) (after : List FileMeta)
      (cs : AllCreated create_file (before ++ meta ∷ after)) (stream : Bytes) (saved : List Saved)
      → create_file (destination meta) ≡ ok name
      → NoneIs after
      → held name (save_all saved (cut_into create_file (before ++ meta ∷ after) cs stream))
        ≡ some (take meta.size (drop (total before) stream))
  last_held [] meta after ((name', e), cs) stream saved is_name h =
      let file : Saved = record { name = name; bytes = take meta.size stream } in
      let same : name' ≡ name = (let e' = sym e ∙ is_name in cc) in
      rw same (
        held_last saved [] file (cut_into create_file after cs (drop meta.size stream))
          (cut_into-IsNew after cs (drop meta.size stream) h))
  last_held (first ∷ before) meta after ((name', e), cs) stream saved is_name h =
      last_held before meta after cs (drop first.size stream) _ is_name h
      ∙ ap (λ s. some (take meta.size s)) (drop-drop first.size (total before) stream)

  -- Files that can be created, and whose sizes fit together in a u64. On any stream, `receive_files`
  -- returns Ok, and a file that several of them are created as holds what the last of these got of
  -- the stream, alone: what the others got is on the disk no more.
  pub receive_files-last :
      (p : Profile) (before : List FileMeta) (meta : FileMeta) (after : List FileMeta)
      (stream : Bytes)
      → AllCreated create_file (before ++ meta ∷ after)
      → create_file (destination meta) ≡ ok name
      → NoneIs after
      → total (before ++ meta ∷ after) < 2 ^ 64
      → (r : Received) × (receive_files p create_file (before ++ meta ∷ after) stream ≡ returns r)
        × (r.result ≡ ok tt)
        × (held name r.saved ≡ some (take meta.size (drop (total before) stream)))
  unfolding receive_files
  receive_files-last p before meta after stream cs is_name h fits =
      let files = before ++ meta ∷ after in
      (
        record {
          saved = save_all [] (cut_into create_file files cs stream);
          rest = drop (total files) stream;
          result = ok tt;
        },
        rw (sum-metas p files 0 (omega arith))
            (ap returns (receive_each-cut create_file files cs stream [])),
        refl,
        last_held before meta after cs stream [] is_name h,
      )
