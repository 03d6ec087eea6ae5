-- ===== src/Chat/Dialog/Choice.antt =====
-- What the three options of gday_chat/src/file_dialog.rs come to, once both sides have picked the
-- files.
use gday_old.Base.{
  ℕ, zero, suc, ◌+◌, ◌^◌, ◌≤◌, ◌<◌, ◌≡◌, refl, sym, ◌∙◌, ap, Bool, true, false, List, [], ◌∷◌, ◌++◌,
  append_assoc, append-nil, map, lt→ltb, if◌then◌else◌, length, take, replicate, Bool-cases, inl,
  inr, arith,
}
use gday_old.Base.Outcome.{Outcome, returns, Profile, add_u64, ok}
use gday_old.Base.Text.{Bytes, same_text, codes, trim}
use gday_old.Chat.Protocol.{FileMeta}
use gday_old.Chat.Dialog.{Tally, count_file, count_files, answer, confirm_receive, accepted_files}

-- The sizes together.
abbrev pub total : List FileMeta → ℕ
total [] = 0
total (meta ∷ metas) = meta.size + total metas

-- How many files are not there yet.
abbrev pub count_new : (FileMeta → Bool) → List FileMeta → ℕ
count_new file_exists [] = 0
count_new file_exists (meta ∷ metas) =
    if file_exists meta then count_new file_exists metas else suc (count_new file_exists metas)

pub add_u64-small : (p : Profile) (a b : ℕ) → a + b < 2 ^ 64 → add_u64 p a b ≡ returns (a + b)
unfolding add_u64
add_u64-small p a b h = rw (lt→ltb (a + b) (2 ^ 64) h)

-- What the loop leaves.
record Counted (t : Tally) (count : ℕ) (o : Outcome Tally) : Type 0 where
  tally : Tally
  returned : o ≡ returns tally
  new_files_eq : tally.new_files ≡ t.new_files ++ replicate count true

true_more :
    (s : List Bool) (n : ℕ) → (s ++ true ∷ []) ++ replicate n true ≡ s ++ replicate (suc n) true
true_more s n = append_assoc s (true ∷ []) (replicate n true)

count_files-Counted :
    (p : Profile) (file_exists : FileMeta → Bool) (metas : List FileMeta) (t : Tally)
    → t.new_size ≤ t.total_size
    → t.total_size + total metas < 2 ^ 64
    → Counted t (count_new file_exists metas) (count_files p file_exists metas t)
unfolding count_files count_file
count_files-Counted p file_exists [] t le fits = record {
  tally = t;
  returned = refl;
  new_files_eq = sym (append-nil t.new_files);
}
count_files-Counted p file_exists (meta ∷ metas) t le fits =
    let first = add_u64-small p t.total_size meta.size (omega arith) in
    elim (Bool-cases (file_exists meta)) [
      | inl e ↦
          let rest =
            count_files-Counted p file_exists metas
              (record t { total_size = t.total_size + meta.size }) (omega arith) (omega arith) in
          rw (e, first)
            (record {
              tally = rest.tally;
              returned = rest.returned;
              new_files_eq = rest.new_files_eq;
            })
      | inr e ↦
          let rest =
            count_files-Counted p file_exists metas
              (record {
                new_files = t.new_files ++ true ∷ [];
                new_size = t.new_size + meta.size;
                total_size = t.total_size + meta.size;
              })
              (omega arith) (omega arith) in
          rw (e, first, add_u64-small p t.new_size meta.size (omega arith))
            (record {
              tally = rest.tally;
              returned = rest.returned;
              new_files_eq =
                  rest.new_files_eq ∙ true_more t.new_files (count_new file_exists metas);
            })
    ]

pub accepted_files-true :
    {A : Type 0} (n : ℕ) (files : List A) → accepted_files files (replicate n true) ≡ take n files
unfolding accepted_files
accepted_files-true zero [] = refl
accepted_files-true zero (file ∷ files) = refl
accepted_files-true (suc n) [] = refl
accepted_files-true (suc n) (file ∷ files) = ap (λ s. file ∷ s) (accepted_files-true n files)

accepted_files-false :
    {A : Type 0} (n : ℕ) (files : List A) → accepted_files files (replicate n false) ≡ []
unfolding accepted_files
accepted_files-false zero [] = refl
accepted_files-false zero (file ∷ files) = refl
accepted_files-false (suc n) [] = refl
accepted_files-false (suc n) (file ∷ files) = accepted_files-false n files

-- How many of the first files are accepted under a response.
abbrev pub accepted_count : (FileMeta → Bool) → Bytes → List FileMeta → ℕ
accepted_count file_exists response files =
    if same_text (trim response) (codes "2")
    then count_new file_exists files
    else if same_text (trim response) (codes "3")
    then length files
    else 0

take-length : {A : Type 0} (files : List A) → take (length files) files ≡ files
take-length [] = refl
take-length (file ∷ files) = ap (λ s. file ∷ s) (take-length files)

take_zero : {A : Type 0} (files : List A) → take 0 files ≡ []
take_zero files = refl

-- Files whose sizes together fit in a u64. Option 3 accepts all of them and any other answer but
-- option 2 none. Option 2 accepts as many of the first files as there are new ones, whichever of the
-- files these are.
pub confirm_receive-accepted :
    (p : Profile) (file_exists : FileMeta → Bool) (response : Bytes) (files : List FileMeta)
    → total files < 2 ^ 64
    → (chosen : List Bool) × (confirm_receive p file_exists (ok response) files
        ≡ returns (ok chosen))
      × (accepted_files files chosen ≡ take (accepted_count file_exists response files) files)
unfolding confirm_receive
confirm_receive-accepted p file_exists response files fits =
    let empty : Tally = record { new_files = []; new_size = 0; total_size = 0 } in
    let counted = count_files-Counted p file_exists files empty (omega arith) (omega arith) in
    (
      answer response (length files) counted.tally,
      rw counted.returned,
      elim (Bool-cases (same_text (trim response) (codes "2"))) [
        | inl e ↦
            rw (e, counted.new_files_eq) (accepted_files-true (count_new file_exists files) files)
        | inr e ↦ elim (Bool-cases (same_text (trim response) (codes "3"))) [
          | inl e' ↦ rw (e, e') (accepted_files-true (length files) files)
          | inr e' ↦ rw (e, e') (accepted_files-false (length files) files)
        ]
      ],
    )

-- Both sides pick the same files, whatever the list of answers is, its length included.
pub accepted_files-map :
    {A B : Type 0} (f : A → B) (files : List A) (chosen : List Bool)
    → accepted_files (map f files) chosen ≡ map f (accepted_files files chosen)
unfolding accepted_files
accepted_files-map f [] chosen = refl
accepted_files-map f (file ∷ files) [] = refl
accepted_files-map f (file ∷ files) (true ∷ chosen) =
    ap (λ s. f file ∷ s) (accepted_files-map f files chosen)
accepted_files-map f (file ∷ files) (false ∷ chosen) = accepted_files-map f files chosen
