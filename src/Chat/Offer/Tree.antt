-- ===== src/Chat/Offer/Tree.antt =====
-- The walk of gday_chat/src/file_dialog.rs through a finite tree of directories.
use Prim.Native.Nat.{max}
use gday_old.Base.{
  ℕ, zero, suc, ◌≤◌, ◌≡◌, refl, Bool, true, false, some, List, [], ◌∷◌, ◌++◌, append_assoc,
  append-nil, arith,
}
use gday_old.Base.Outcome.{Result, ok}
use gday_old.Base.Text.{Bytes, same_text_refl}
use gday_old.Chat.Protocol.{LocalFileMeta}
use gday_old.Chat.Offer.{
  relative, absolute, directory, file, other, FileSystem, found, strip, strip_prefix, each_entry,
  get_file_metadatas_helper,
}

-- What stands under a path: a file with its size and whether it can be opened, something else, or a
-- directory with its entries by name.
mutual
  pub data Tree : Type 0 where
    leaf : ℕ → Bool → Tree
    device : Tree
    folder : Forest → Tree

  pub data Forest : Type 0 where
    empty : Forest
    entry : Bytes → Tree → Forest → Forest

abbrev pub names : Forest → List (Result ℕ Bytes)
names empty = []
names (entry name tree forest) = ok name ∷ names forest

-- How deep directories are nested.
abbrev mutual
  pub depth : Tree → ℕ
  depth (leaf size readable) = 0
  depth device = 0
  depth (folder forest) = suc (depths forest)

  pub depths : Forest → ℕ
  depths empty = 0
  depths (entry name tree forest) = max (depth tree) (depths forest)

-- The files of a tree at a path below `top` that can be opened.
abbrev pub opened : List Bytes → List Bytes → ℕ → Bool → List LocalFileMeta
opened top path size false = []
opened top path size true =
    record { local_path = absolute (top ++ path); public_path = relative path; size = size } ∷ []

abbrev mutual
  pub files_of : List Bytes → List Bytes → Tree → List LocalFileMeta
  files_of top path (leaf size readable) = opened top path size readable
  files_of top path device = []
  files_of top path (folder forest) = files_in top path forest

  pub files_in : List Bytes → List Bytes → Forest → List LocalFileMeta
  files_in top path empty = []
  files_in top path (entry name tree forest) =
      files_of top (path ++ name ∷ []) tree ++ files_in top path forest

strip-append : (top path : List Bytes) → strip top (top ++ path) ≡ some path
unfolding strip
strip-append [] path = refl
strip-append (c ∷ top) path = rw (same_text_refl c, strip-append top path)

strip_prefix-append :
    (top path : List Bytes) → strip_prefix (some top) (top ++ path) ≡ some (relative path)
unfolding strip_prefix
strip_prefix-append top path = rw (strip_prefix, strip-append top path)

module _ (fs : FileSystem) where
  -- The file system has a tree under a canonical path, where that many directories are open.
  abbrev mutual
    pub Holds : ℕ → List Bytes → Tree → Type 0
    Holds held path (leaf size readable) =
        (fs.canonicalize (absolute path) ≡ ok path)
        × (fs.metadata path ≡ ok (file size))
        × (fs.can_open path ≡ readable)
    Holds held path device =
        (fs.canonicalize (absolute path) ≡ ok path) × (fs.metadata path ≡ ok other)
    Holds held path (folder forest) =
        (fs.canonicalize (absolute path) ≡ ok path)
        × (fs.metadata path ≡ ok directory)
        × (fs.read_dir held path ≡ ok (names forest))
        × HoldsAll (suc held) path forest

    pub HoldsAll : ℕ → List Bytes → Forest → Type 0
    HoldsAll held path empty = Unit {0}
    HoldsAll held path (entry name tree forest) =
        Holds held (path ++ name ∷ []) tree × HoldsAll held path forest

  mutual
    unfolding get_file_metadatas_helper each_entry

    pub walk-tree :
        (held : ℕ) (top path : List Bytes) (n : ℕ) (tree : Tree) (files : List LocalFileMeta)
        → Holds held (top ++ path) tree
        → depth tree ≤ n
        → get_file_metadatas_helper fs (suc n) held (some top) (absolute (top ++ path)) files
          ≡ found (files ++ files_of top path tree)
    walk-tree held top path n (leaf size true) files (canonical, is_file, can) deep =
        rw (canonical, is_file, can, strip_prefix-append top path)
    walk-tree held top path n (leaf size false) files (canonical, is_file, can) deep =
        rw (canonical, is_file, can, append-nil files)
    walk-tree held top path n device files (canonical, is_other) deep =
        rw (canonical, is_other, append-nil files)
    walk-tree held top path zero (folder forest) files h deep = absurd (omega arith)
    walk-tree held top path (suc n) (folder forest) files (canonical, is_dir, listed, below) deep =
        rw (canonical, is_dir, listed)
          (walk-forest (suc held) top path n forest files below (omega arith))

    walk-forest :
        (held : ℕ) (top path : List Bytes) (n : ℕ) (forest : Forest) (files : List LocalFileMeta)
        → HoldsAll held (top ++ path) forest
        → depths forest ≤ n
        → each_entry
            (get_file_metadatas_helper fs (suc n) held (some top))
            (top ++ path)
            (names forest)
            files
          ≡ found (files ++ files_in top path forest)
    walk-forest held top path n empty files h deep = rw (append-nil files)
    walk-forest held top path n (entry name tree forest) files (h, hs) deep =
        let here =
          walk-tree held top (path ++ name ∷ []) n tree files
            (rw (append_assoc top path (name ∷ [])) at h) (omega arith) in
        rw (
          append_assoc top path (name ∷ []),
          here,
          walk-forest held top path n forest (files ++ files_of top (path ++ name ∷ []) tree) hs
              (omega arith),
          append_assoc files (files_of top (path ++ name ∷ []) tree) (files_in top path forest),
        )
