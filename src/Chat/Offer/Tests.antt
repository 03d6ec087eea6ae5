-- ===== src/Chat/Offer/Tests.antt =====
-- The walk of gday_chat/src/file_dialog.rs on a small disk, three directories of which may be open: a directory "d" in "h" with a file "f", a
-- file "g" that cannot be opened and an empty directory "e", and a link "l" beside it.
use gday_old.Base.{
  Bool, ◌≡◌, refl, true, false, List, [], ◌∷◌, map, All, arith, if◌then◌else◌, ℕ, ltb,
}
use gday_old.Base.Outcome.{debug, Result, ok, err}
use gday_old.Base.Text.{Bytes, same_text, codes}
use gday_old.Chat.Overlap.{io, user_cancelled_send, check_paths, says_yes}
use gday_old.Chat.Offer.{
  absolute, relative, Kind, directory, file, FileSystem, found, failed, panicked,
  get_file_metadatas, get_file_metadatas_helper, get_each, each_entry, confirm_send, strip,
  strip_prefix, parent,
}
use gday_old.Chat.Offer.Tree.{leaf, folder, entry, empty}
use gday_old.Chat.Offer.Listing.{
  Given, listing, IsGiven, confirm_send-listing, LinksBack, get_file_metadatas-LinksBack,
}

abbrev h : Bytes
h = codes "h"

abbrev d : Bytes
d = codes "d"

abbrev disk_metadata : List Bytes → Result ℕ Kind
disk_metadata [] = ok directory
disk_metadata (a ∷ []) = ok directory
disk_metadata (a ∷ b ∷ []) = ok directory
disk_metadata (a ∷ b ∷ c ∷ path) = if same_text c (codes "e") then ok directory else ok (file 5)

abbrev disk_entries : List Bytes → Result ℕ (List (Result ℕ Bytes))
disk_entries [] = err 1
disk_entries (a ∷ []) = ok (ok (codes "l") ∷ [])
disk_entries (a ∷ b ∷ []) = ok (ok (codes "f") ∷ ok (codes "g") ∷ ok (codes "e") ∷ [])
disk_entries (a ∷ b ∷ c ∷ path) = ok []

abbrev disk_can_open : List Bytes → Bool
disk_can_open [] = true
disk_can_open (a ∷ []) = true
disk_can_open (a ∷ b ∷ []) = true
disk_can_open (a ∷ b ∷ c ∷ path) = same_text c (codes "f")

abbrev components : Bytes → List Bytes
components s =
    if same_text s (codes "/h")
    then h ∷ []
    else if same_text s (codes "/h/l")
    then h ∷ []
    else if same_text s (codes "/h/d/f")
    then h ∷ d ∷ codes "f" ∷ []
    else if same_text s (codes "/h/d/g")
    then h ∷ d ∷ codes "g" ∷ []
    else if same_text s (codes "/h/d/e")
    then h ∷ d ∷ codes "e" ∷ []
    else h ∷ d ∷ []

abbrev disk : FileSystem
disk = record {
  canonicalize = λ s. ok (components s);
  metadata = disk_metadata;
  read_dir = λ held path. if ltb held 3 then disk_entries path else err 24;
  can_open = disk_can_open;
}

abbrev given : List Given
given =
    record {
      text = d;
      above = h ∷ [];
      name = d;
      tree = folder (
          entry (codes "f") (leaf 5 true)
            (entry (codes "g") (leaf 5 false) (entry (codes "e") (folder empty) empty)));
    }
    ∷ []

given-IsGiven : All (IsGiven disk 2) given
unfolding absolute relative
given-IsGiven = (
  record {
    canonical = refl;
    holds = (
      refl,
      refl,
      refl,
      ((refl, refl, refl), ((refl, refl, refl), ((refl, refl, refl, tt), tt))),
    );
    deep = omega arith;
  },
  tt,
)

disjoint : check_paths disk.canonicalize (map (λ (g : Given). g.text) given) ≡ ok tt
unfolding check_paths
disjoint = refl

confirm_send-listing_example :
    confirm_send disk debug 3 (ok (codes "y")) (d ∷ [])
    ≡ (if says_yes (codes "y") then found (listing given) else failed user_cancelled_send)
confirm_send-listing_example =
    confirm_send-listing disk debug 2 (codes "y") given given-IsGiven disjoint (omega arith)

h-LinksBack : LinksBack disk 3 24 (h ∷ [])
unfolding absolute relative
h-LinksBack = record {
  name = codes "l";
  entries = [];
  is_dir = refl;
  listed = λ held few. let yes : ltb held 3 ≡ true = ground arith in rw yes refl;
  full = refl;
  leads_back = refl;
}

get_file_metadatas-LinksBack_example :
    get_file_metadatas disk 4 (codes "/h" ∷ d ∷ []) ≡ failed (io 24)
unfolding absolute relative
get_file_metadatas-LinksBack_example =
    get_file_metadatas-LinksBack disk 3 24 (codes "/h") (d ∷ []) (h ∷ []) refl refl h-LinksBack

-- A link to a file elsewhere: the canonical path does not start with the directory that was given.
abbrev elsewhere : FileSystem
elsewhere = record disk {
  canonicalize = λ s.
      if same_text s (codes "/h/d/f")
      then ok (codes "x" ∷ codes "y" ∷ codes "f" ∷ [])
      else ok (components s);
}

test_link_outside : get_file_metadatas elsewhere 3 (d ∷ []) ≡ panicked
unfolding get_file_metadatas get_each get_file_metadatas_helper each_entry absolute relative parent
    strip strip_prefix
test_link_outside = refl
