-- ===== src/Chat/Dialog.antt =====
-- gday_chat/src/file_dialog.rs: what the user accepts of the files that a peer offers, and how both
-- sides of gday_chat/src/lib.rs pick the accepted files. Which files exist already with their size,
-- and what is read from the terminal, are arguments; printing is left out.
pub mod Choice
use mathlib.Core.Bool.{not}
use gday_old.Base.{
  ℕ, Bool, true, false, Option, none, some, List, [], ◌∷◌, ◌++◌, ◌&&◌, ◌==◌, if◌then◌else◌, length,
  replicate,
}
use gday_old.Base.Outcome.{Outcome, returns, ◌>>=◌, Profile, add_u64, Result, ok, err}
use gday_old.Base.Text.{Bytes, same_text, codes, trim}
use gday_old.Chat.Protocol.{FileMeta}
use gday_old.Chat.Transfer.{received_file_folder, join}

-- The three variables of the loop.
pub record Tally : Type 0 where
  pub new_files : List Bool
  pub new_size : ℕ
  pub total_size : ℕ

-- `stored` is the size of a file that can be opened.
unfoldable pub file_exists : (Bytes → Option ℕ) → FileMeta → Bool
file_exists stored meta = elim (stored (join received_file_folder meta.path)) [
  | none ↦ false
  | some size ↦ size == meta.size
]

-- A round of the loop, with what `file_exists` says.
unfoldable pub count_file : Profile → Bool → ℕ → Tally → Outcome Tally
count_file p exists size t = add_u64 p t.total_size size >>= λ total_size.
    if exists
    then returns (record t { total_size = total_size })
    else (add_u64 p t.new_size size >>= λ new_size. returns (record {
      new_files = t.new_files ++ not exists ∷ [];
      new_size = new_size;
      total_size = total_size;
    }))

unfoldable pub count_files : Profile → (FileMeta → Bool) → List FileMeta → Tally → Outcome Tally
count_files p file_exists [] t = returns t
count_files p file_exists (meta ∷ metas) t =
    count_file p (file_exists meta) meta.size t >>= count_files p file_exists metas

-- The options.
abbrev pub answer : Bytes → ℕ → Tally → List Bool
answer response count t =
    if same_text (trim response) (codes "2")
    then t.new_files
    else if same_text (trim response) (codes "3")
    then replicate count true
    else replicate count false

-- What the terminal gives is a line or an error.
abbrev pub answered : Result ℕ Bytes → ℕ → Tally → Result ℕ (List Bool)
answered (err e) count t = err e
answered (ok response) count t = ok (answer response count t)

unfoldable pub confirm_receive :
    Profile → (FileMeta → Bool) → Result ℕ Bytes → List FileMeta → Outcome (Result ℕ (List Bool))
confirm_receive p file_exists response files =
    count_files p file_exists files (record { new_files = []; new_size = 0; total_size = 0 })
    >>= λ t. returns (answered response (length files) t)

-- `zip`, `filter` and `map`, as both sides use them.
unfoldable pub accepted_files {ℓ} : {A : Type ℓ} → List A → List Bool → List A
accepted_files [] chosen = []
accepted_files (file ∷ files) [] = []
accepted_files (file ∷ files) (true ∷ chosen) = file ∷ accepted_files files chosen
accepted_files (file ∷ files) (false ∷ chosen) = accepted_files files chosen
