-- ===== src/Chat/Transfer/Disk.antt =====
-- The disk that `receive_files` of gday_chat/src/file_transfer.rs leaves.
use gday_old.Base.{
  ◌≡◌, ◌≢◌, refl, sym, ◌∙◌, ap, false, Option, none, some, List, [], ◌∷◌, ◌++◌, append_assoc,
  append-nil, All, All-append, Bool-cases, inl, inr, if◌then◌else◌,
}
use gday_old.Base.Text.{Bytes, same_text, same_text_refl, same_text→eq}
use gday_old.Chat.Transfer.{Saved, without, save}

-- Files that are made one after the other.
abbrev pub save_all : List Saved → List Saved → List Saved
save_all saved [] = saved
save_all saved (file ∷ files) = save_all (save file saved) files

-- What the disk holds under a name.
abbrev pub held : Bytes → List Saved → Option Bytes
held name [] = none
held name (file ∷ files) =
    let rest = held name files in if same_text file.name name then some file.bytes else rest

abbrev pub IsNew : List Saved → Bytes → Type 0
IsNew files name = All (λ (file : Saved). file.name ≢ name) files

-- No two files are one.
abbrev pub Distinct : List Saved → Type 0
Distinct [] = Unit
Distinct (file ∷ files) = IsNew files file.name × Distinct files

different : (s t : Bytes) → s ≢ t → same_text s t ≡ false
different s t h = elim (Bool-cases (same_text s t)) [
  | inl e ↦ absurd (h (same_text→eq s t e))
  | inr e ↦ e
]

without-IsNew : (name : Bytes) (files : List Saved) → IsNew files name → without name files ≡ files
without-IsNew name [] h = refl
without-IsNew name (file ∷ files) (h, hs) =
    rw (different file.name name h, without-IsNew name files hs) refl

-- None of the files is there yet.
abbrev AllNew : List Saved → List Saved → Type 0
AllNew saved [] = Unit
AllNew saved (file ∷ files) = IsNew saved file.name × AllNew saved files

AllNew-snoc :
    (saved : List Saved) (file : Saved) (files : List Saved)
    → AllNew saved files
    → IsNew files file.name
    → AllNew (saved ++ file ∷ []) files
AllNew-snoc saved file [] h n = tt
AllNew-snoc saved file (other ∷ files) (h, hs) (n, ns) =
    (All-append _ saved (file ∷ []) h ((λ e. n (sym e)), tt), AllNew-snoc saved file files hs ns)

save_all-append :
    (saved files : List Saved)
    → AllNew saved files
    → Distinct files
    → save_all saved files ≡ saved ++ files
save_all-append saved [] h d = sym (append-nil saved)
save_all-append saved (file ∷ files) (h, hs) (n, d) =
    ap (λ s. save_all (s ++ file ∷ []) files) (without-IsNew file.name saved h)
    ∙ save_all-append (saved ++ file ∷ []) files (AllNew-snoc saved file files hs n) d
    ∙ append_assoc saved (file ∷ []) files

AllNew-nil : (files : List Saved) → AllNew [] files
AllNew-nil [] = tt
AllNew-nil (file ∷ files) = (tt, AllNew-nil files)

-- Files of which no two are one are all there.
pub save_all-Distinct : (files : List Saved) → Distinct files → save_all [] files ≡ files
save_all-Distinct files d = save_all-append [] files (AllNew-nil files) d

held-without : (name : Bytes) (files : List Saved) → held name (without name files) ≡ none
held-without name [] = refl
held-without name (file ∷ files) = elim (Bool-cases (same_text file.name name)) [
  | inl e ↦ rw e (held-without name files)
  | inr e ↦ rw (e, e) (held-without name files)
]

held-append-none :
    (name : Bytes) (files : List Saved) (file : Saved)
    → held name files ≡ none
    → file.name ≡ name
    → held name (files ++ file ∷ []) ≡ some file.bytes
held-append-none name [] file h e = rw (e, same_text_refl name) refl
held-append-none name (other ∷ files) file h e = elim (Bool-cases (same_text other.name name)) [
  | inl same ↦ let h' = rw same at h in cc
  | inr apart ↦ rw apart (held-append-none name files file (rw apart at h) e)
]

held-append-other :
    (name : Bytes) (files : List Saved) (file : Saved)
    → file.name ≢ name
    → held name (files ++ file ∷ []) ≡ held name files
held-append-other name [] file h = rw (different file.name name h) refl
held-append-other name (other ∷ files) file h = elim (Bool-cases (same_text other.name name)) [
  | inl same ↦ rw (same) refl
  | inr apart ↦ rw (apart) (held-append-other name files file h)
]

held-without-other :
    (name gone : Bytes) (files : List Saved)
    → gone ≢ name
    → held name (without gone files) ≡ held name files
held-without-other name gone [] h = refl
held-without-other name gone (file ∷ files) h = elim (Bool-cases (same_text file.name gone)) [
  | inl e ↦
      rw (e, ap (λ s. same_text s name) (same_text→eq file.name gone e), different gone name h)
        (held-without-other name gone files h)
  | inr e ↦ rw (e, held-without-other name gone files h) refl
]

-- A file keeps what it holds while others are made.
held-save_all :
    (name : Bytes) (saved files : List Saved)
    → IsNew files name
    → held name (save_all saved files) ≡ held name saved
held-save_all name saved [] h = refl
held-save_all name saved (file ∷ files) (h, hs) =
    held-save_all name (save file saved) files hs
    ∙ held-append-other name (without file.name saved) file h
    ∙ held-without-other name file.name saved h

-- Under each name is what was last put there.
pub held_last :
    (saved before : List Saved) (file : Saved) (after : List Saved)
    → IsNew after file.name
    → held file.name (save_all saved (before ++ file ∷ after)) ≡ some file.bytes
held_last saved [] file after h =
    held-save_all file.name (save file saved) after h
    ∙ held-append-none file.name (without file.name saved) file (held-without file.name saved) refl
held_last saved (first ∷ before) file after h = held_last (save first saved) before file after h
