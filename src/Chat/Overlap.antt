-- ===== src/Chat/Overlap.antt =====
-- `confirm_send` of gday_chat/src/file_dialog.rs: its test that no path lies in another, and its
-- question. `canonicalize` is an argument; a canonical path is the list of its components.
pub mod Disjoint
mod Tests
use mathlib.Core.Bool.{◌||◌}
use gday_old.Base.{ℕ, Bool, true, false, ◌&&◌, List, [], ◌∷◌, map, ◌==◌, if◌then◌else◌}
use gday_old.Base.Outcome.{Result, ok, err}
use gday_old.Base.Text.{Bytes, same_text, codes, trim, lower}

pub data ConfirmSendError : Type 0 where
  io : ℕ → ConfirmSendError
  overlapping_paths : Bytes → Bytes → ConfirmSendError
  user_cancelled_send : ConfirmSendError

-- `Path::starts_with`, by whole components.
abbrev pub starts_with : List Bytes → List Bytes → Bool
starts_with path [] = true
starts_with [] (c ∷ base) = false
starts_with (c ∷ path) (d ∷ base) = same_text c d && starts_with path base

abbrev pub overlap : List Bytes → List Bytes → Bool
overlap canonical1 canonical2 =
    starts_with canonical1 canonical2 || starts_with canonical2 canonical1

module _ (canonicalize : Bytes → Result ℕ (List Bytes)) where
  -- The inner loop, for the first path of a pair.
  unfoldable pub check_against :
      Bytes → List Bytes → List Bytes → Result ConfirmSendError (Unit {0})
  check_against path1 canonical1 [] = ok tt
  check_against path1 canonical1 (path2 ∷ paths) = elim (canonicalize path2) [
    | err e ↦ err (io e)
    | ok canonical2 ↦
        let rest = check_against path1 canonical1 paths in
        if overlap canonical1 canonical2 then err (overlapping_paths path1 path2) else rest
  ]

  abbrev pub and_then :
      Result ConfirmSendError (Unit {0})
      → Result ConfirmSendError (Unit {0})
      → Result ConfirmSendError (Unit {0})
  and_then (err e) next = err e
  and_then (ok a) next = next

  -- The outer loop.
  unfoldable pub check_paths : List Bytes → Result ConfirmSendError (Unit {0})
  unfolding check_against
  check_paths [] = ok tt
  check_paths (path1 ∷ paths) =
      let rest = check_paths paths in
      elim (canonicalize path1) [
        | err e ↦ err (io e)
        | ok canonical1 ↦ and_then (check_against path1 canonical1 paths) rest
      ]

-- `str::starts_with`.
abbrev pub text_starts_with : Bytes → Bytes → Bool
text_starts_with s [] = true
text_starts_with [] (c ∷ t) = false
text_starts_with (c ∷ s) (d ∷ t) = (c == d) && text_starts_with s t

-- Whether the answer to the question is a yes: any start of "yes", the empty one included.
unfoldable pub says_yes : Bytes → Bool
says_yes response = text_starts_with (codes "yes") (map lower (trim response))
