-- ===== src/Chat/Overlap/Tests.antt =====
-- Tests of `confirm_send` of gday_chat/src/file_dialog.rs, on paths of components of one byte.
use gday_old.Base.{◌≡◌, ◌↔◌, refl, true, List, [], ◌∷◌, map}
use gday_old.Base.Outcome.{ok, err}
use gday_old.Base.Text.{Bytes, codes, trim}
use gday_old.Chat.Overlap.{check_paths, overlapping_paths, says_yes}
use gday_old.Chat.Overlap.Disjoint.{Canonically, AllDisjoint, check_paths_iff}

abbrev letters : Bytes → List Bytes
letters path = map (λ c. c ∷ []) path

abbrev paths : List Bytes
paths = codes "ab" ∷ codes "ac" ∷ codes "a" ∷ []

check_paths_iff_example :
    (check_paths (λ path. ok (letters path)) paths ≡ ok tt)
    ↔ Canonically (λ path. ok (letters path)) AllDisjoint paths
check_paths_iff_example = check_paths_iff (λ path. ok (letters path)) paths

test_overlap :
    check_paths (λ path. ok (letters path)) paths ≡ err (overlapping_paths (codes "ab") (codes "a"))
unfolding check_paths
test_overlap = refl

-- An empty answer is a yes.
test_empty_answer : says_yes (codes " ") ≡ true
unfolding says_yes trim
test_empty_answer = refl
