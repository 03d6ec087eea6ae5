-- ===== src/Chat/Offer/Listing.antt =====
-- What `confirm_send` of gday_chat/src/file_dialog.rs offers of finite trees of directories, and the
-- walk through a directory that holds a link back to itself.
use gday_old.Base.{
  ◌+◌, ap, ◌∙◌, ℕ, zero, suc, ◌^◌, ◌≤◌, ◌<◌, if◌then◌else◌, ◌≡◌, refl, Option, some, List, [], ◌∷◌,
  ◌++◌, append_assoc, append-nil, map, All, arith,
}
use gday_old.Base.Outcome.{Profile, Result, ok, err}
use gday_old.Base.Text.{Bytes}
use gday_old.Chat.Protocol.{LocalFileMeta}
use gday_old.Chat.Overlap.{io, user_cancelled_send, check_paths, says_yes}
use gday_old.Chat.Transfer.Delivery.{total, sum-total}
use gday_old.Chat.Offer.{
  absolute, directory, FileSystem, found, parent, each_entry, confirm_send, failed,
  get_file_metadatas_helper, get_each, get_file_metadatas,
}
use gday_old.Chat.Offer.Tree.{Tree, depth, files_of, Holds, walk-tree}

parent-append : (above : List Bytes) (name : Bytes) → parent (above ++ name ∷ []) ≡ some above
unfolding parent
parent-append [] name = refl
parent-append (c ∷ []) name = refl
parent-append (c ∷ d ∷ above) name = rw (parent-append (d ∷ above) name)

-- A path that is given, the canonical path that it is for, and what stands there.
pub record Given : Type 0 where
  pub text : Bytes
  pub above : List Bytes
  pub name : Bytes
  pub tree : Tree

-- The files under all of them, in order.
abbrev pub listing : List Given → List LocalFileMeta
listing [] = []
listing (g ∷ given) = files_of g.above (g.name ∷ []) g.tree ++ listing given

module _ (fs : FileSystem) where
  pub record IsGiven (n : ℕ) (g : Given) : Type 0 where
    pub canonical : fs.canonicalize g.text ≡ ok (g.above ++ g.name ∷ [])
    pub holds : Holds fs 0 (g.above ++ g.name ∷ []) g.tree
    pub deep : depth g.tree ≤ n

  get_each-listing :
      (n : ℕ) (given : List Given) (files : List LocalFileMeta)
      → All (IsGiven n) given
      → get_each fs (suc n) (map (λ (g : Given). g.text) given) files
        ≡ found (files ++ listing given)
  unfolding get_each
  get_each-listing n [] files hs = rw (append-nil files)
  get_each-listing n (g ∷ given) files (h, hs) = rw (
    h.canonical,
    parent-append g.above g.name,
    walk-tree fs 0 g.above (g.name ∷ []) n g.tree files h.holds h.deep,
    get_each-listing n given (files ++ files_of g.above (g.name ∷ []) g.tree) hs,
    append_assoc files (files_of g.above (g.name ∷ []) g.tree) (listing given),
  )

  -- Paths that do not overlap, under which the file system has finite trees, and an answer that can be
  -- read: on enough fuel for the depth of the trees, `confirm_send` offers exactly the files that can be opened, in the
  -- order of the directories, each under its path from the directory above the path that was given;
  -- or fails where the answer is not a yes. The sizes together fit in a u64.
  pub confirm_send-listing :
      (p : Profile) (n : ℕ) (response : Bytes) (given : List Given)
      → All (IsGiven n) given
      → check_paths fs.canonicalize (map (λ (g : Given). g.text) given) ≡ ok tt
      → total (listing given) < 2 ^ 64
      → confirm_send fs p (suc n) (ok response) (map (λ (g : Given). g.text) given)
        ≡ (if says_yes response then found (listing given) else failed user_cancelled_send)
  unfolding confirm_send get_file_metadatas
  confirm_send-listing p n response given hs disjoint fits =
      rw (disjoint, get_each-listing n given [] hs, sum-total p (listing given) 0 (omega arith))

  -- A directory whose first entry is a link that leads back to it, and the limit to the directories
  -- that are open at once, with the error behind it.
  pub record LinksBack (limit e : ℕ) (path : List Bytes) : Type 0 where
    pub name : Bytes
    pub entries : List (Result ℕ Bytes)
    pub is_dir : fs.metadata path ≡ ok directory
    pub listed : (held : ℕ) → held < limit → fs.read_dir held path ≡ ok (ok name ∷ entries)
    pub full : fs.read_dir limit path ≡ err e
    pub leads_back : fs.canonicalize (absolute (path ++ name ∷ [])) ≡ ok path

  walk-LinksBack :
      (limit e left held : ℕ) (top_path : Option (List Bytes)) (text : Bytes) (path : List Bytes)
      (files : List LocalFileMeta)
      → left + held ≡ limit
      → fs.canonicalize text ≡ ok path
      → LinksBack limit e path
      → get_file_metadatas_helper fs (suc left) held top_path text files ≡ failed (io e)
  unfolding get_file_metadatas_helper each_entry
  walk-LinksBack limit e zero held top_path text path files sum canonical link =
      let last : held ≡ limit = omega arith in
      rw (canonical, link.is_dir, ap (λ n. fs.read_dir n path) last ∙ link.full) refl
  walk-LinksBack limit e (suc left) held top_path text path files sum canonical link = rw (
    canonical,
    link.is_dir,
    link.listed held (omega arith),
    walk-LinksBack limit e left (suc held) top_path (absolute (path ++ link.name ∷ [])) path files
        (omega arith) link.leads_back link,
  )

  -- A directory is given whose first entry is a link that leads back to it. The walk goes round the
  -- link until no further directory can be opened, and `get_file_metadatas` then fails with that error:
  -- no file is offered. Fuel that is one more than the limit is enough.
  pub get_file_metadatas-LinksBack :
      (limit e : ℕ) (text : Bytes) (texts : List Bytes) (path : List Bytes)
      → fs.canonicalize text ≡ ok path
      → fs.canonicalize (absolute path) ≡ ok path
      → LinksBack limit e path
      → get_file_metadatas fs (suc limit) (text ∷ texts) ≡ failed (io e)
  unfolding get_file_metadatas get_each
  get_file_metadatas-LinksBack limit e text texts path given canonical link =
      rw
        (
          given,
          walk-LinksBack limit e limit 0 (parent path) (absolute path) path [] (omega arith)
              canonical link,
        )
        refl
