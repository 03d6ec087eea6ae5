-- ===== src/Chat/Offer.antt =====
-- gday_chat/src/file_dialog.rs: the files under the paths that are to be sent, and `confirm_send`. The
-- file system is a parameter; the recursion through it is on fuel, and ends as `unfinished` where the
-- fuel is used up. A canonical path is the list of its components.
pub mod Tree
pub mod Listing
pub mod Tests
use gday_old.Base.{
  ℕ, zero, suc, Bool, true, false, ◌&&◌, Option, none, some, List, [], ◌∷◌, ◌++◌, map,
  if◌then◌else◌,
}
use gday_old.Base.Outcome.{Outcome, returns, exits, panics, Profile, Result, ok, err}
use gday_old.Base.Text.{Bytes, same_text}
use gday_old.Chat.Protocol.{LocalFileMeta}
use gday_old.Chat.Transfer.{sum}
use gday_old.Chat.Overlap.{ConfirmSendError, io, user_cancelled_send, check_paths, says_yes}

-- The text of a path from its components: a relative one, and an absolute one.
unfoldable pub relative : List Bytes → Bytes
relative [] = []
relative (c ∷ []) = c
relative (c ∷ d ∷ path) = c ++ b'/' ∷ relative (d ∷ path)

unfoldable pub absolute : List Bytes → Bytes
absolute path = b'/' ∷ relative path

pub data Kind : Type 0 where
  directory : Kind
  file : ℕ → Kind
  other : Kind

-- What the system tells of a text or of a canonical path; a number is an error, or a file's size. A
-- directory is read while as many others are open as the first argument of `read_dir` says: there is a
-- limit to them.
pub record FileSystem : Type 0 where
  pub canonicalize : Bytes → Result ℕ (List Bytes)
  pub metadata : List Bytes → Result ℕ Kind
  pub read_dir : ℕ → List Bytes → Result ℕ (List (Result ℕ Bytes))
  pub can_open : List Bytes → Bool

pub data Walk (A : Type 0) : Type 0 where
  found : A → Walk A
  failed : ConfirmSendError → Walk A
  panicked : Walk A
  unfinished : Walk A

infixl 5 ◌>>=◌
abbrev pub ◌>>=◌ : {A B : Type 0} → Walk A → (A → Walk B) → Walk B
found a >>= f = f a
failed e >>= f = failed e
panicked >>= f = panicked
unfinished >>= f = unfinished

-- `?` on an error of the system.
abbrev pub or_io : {A : Type 0} → Result ℕ A → Walk A
or_io (ok a) = found a
or_io (err e) = failed (io e)

-- `Path::parent`, where none is also the empty path that stands in for it, and `Path::strip_prefix`.
unfoldable pub parent : List Bytes → Option (List Bytes)
parent [] = none
parent (c ∷ []) = some []
parent (c ∷ d ∷ path) = elim (parent (d ∷ path)) [ none ↦ some [] | some above ↦ some (c ∷ above) ]

unfoldable pub strip : List Bytes → List Bytes → Option (List Bytes)
strip [] path = some path
strip (c ∷ top) [] = none
strip (c ∷ top) (d ∷ path) = let rest = strip top path in if same_text c d then rest else none

-- The text of what is left.
unfoldable pub strip_prefix : Option (List Bytes) → List Bytes → Option Bytes
strip_prefix none path = some (absolute path)
strip_prefix (some top) path = elim (strip top path) [
  | none ↦ none
  | some rest ↦ some (relative rest)
]

-- `entry?.path()` for each entry, and the call for it.
unfoldable pub each_entry :
    (Bytes → List LocalFileMeta → Walk (List LocalFileMeta))
    → List Bytes
    → List (Result ℕ Bytes)
    → List LocalFileMeta
    → Walk (List LocalFileMeta)
each_entry visit path [] files = found files
each_entry visit path (err e ∷ entries) files = failed (io e)
each_entry visit path (ok name ∷ entries) files =
    visit (absolute (path ++ name ∷ [])) files >>= each_entry visit path entries

-- `files.push`, behind the `unwrap` of `strip_prefix`.
abbrev pub push_file :
    Option Bytes → List Bytes → ℕ → List LocalFileMeta → Walk (List LocalFileMeta)
push_file none path size files = panicked
push_file (some public_path) path size files =
    found
      (files ++ record { local_path = absolute path; public_path = public_path; size = size } ∷ [])

module _ (fs : FileSystem) where
  -- `held` is the number of directories that the calls above this one read.
  abbrev pub on_kind :
      ℕ
      → (Bytes → List LocalFileMeta → Walk (List LocalFileMeta))
      → Option (List Bytes)
      → List Bytes
      → List LocalFileMeta
      → Kind
      → Walk (List LocalFileMeta)
  on_kind held visit top_path path files directory =
      or_io (fs.read_dir held path) >>= λ entries. each_entry visit path entries files
  on_kind held visit top_path path files (file size) =
      if fs.can_open path
      then push_file (strip_prefix top_path path) path size files
      else found files
  on_kind held visit top_path path files other = found files

  unfoldable pub get_file_metadatas_helper :
      ℕ → ℕ → Option (List Bytes) → Bytes → List LocalFileMeta → Walk (List LocalFileMeta)
  get_file_metadatas_helper zero held top_path path files = unfinished
  get_file_metadatas_helper (suc fuel) held top_path path files =
      or_io (fs.canonicalize path) >>= λ path.
      or_io (fs.metadata path)
      >>= on_kind held (get_file_metadatas_helper fuel (suc held) top_path) top_path path files

  -- The loop of `get_file_metadatas`.
  unfoldable pub get_each : ℕ → List Bytes → List LocalFileMeta → Walk (List LocalFileMeta)
  get_each fuel [] files = found files
  get_each fuel (path ∷ paths) files = or_io (fs.canonicalize path) >>= λ path.
      get_file_metadatas_helper fuel 0 (parent path) (absolute path) files >>= get_each fuel paths

  unfoldable pub get_file_metadatas : ℕ → List Bytes → Walk (List LocalFileMeta)
  get_file_metadatas fuel paths = get_each fuel paths []

  abbrev pub checked : Result ConfirmSendError (Unit {0}) → Walk (Unit {0})
  checked (ok u) = found u
  checked (err e) = failed e

  abbrev pub summed : Outcome ℕ → Walk ℕ
  summed (returns size) = found size
  summed (exits n) = panicked
  summed panics = panicked

  -- `response` is what is read from the terminal.
  unfoldable pub confirm_send :
      Profile → ℕ → Result ℕ Bytes → List Bytes → Walk (List LocalFileMeta)
  confirm_send p fuel response paths = do
    _ ← checked (check_paths fs.canonicalize paths)
    files ← get_file_metadatas fuel paths
    _ ← summed (sum p (map (λ (meta : LocalFileMeta). meta.size) files) 0)
    answer ← or_io response
    if says_yes answer then found files else failed user_cancelled_send
