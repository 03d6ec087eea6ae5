-- ===== src/Chat/Run/Tests.antt =====
-- A run of gday_chat at concrete inputs, over a codec of answers and of offers of one file named b, and
-- over a reader's lines on any bytes.
use gday_old.Base.{
  ℕ, ◌≡◌, refl, sym, ◌∙◌, ap, Bool, true, false, Option, none, some, List, [], ◌∷◌, ◌++◌, map, ◌==◌,
  arith, if◌then◌else◌, All, Bool-cases, inl, inr,
}
use gday_old.Base.Outcome.{add_u64, returns, debug, release, Result, ok, err}
use gday_old.Base.Text.{Bytes, same_text, same_text→eq, codes, trim}
use gday_old.Chat.Protocol.{LocalFileMeta, Message, file_offer, file_accept, Codec}
use gday_old.Chat.Dialog.{file_exists, confirm_receive, count_files, count_file, accepted_files}
use gday_old.Chat.Transfer.{to_meta, join}
use gday_old.Chat.Transfer.Delivery.{AllMove, saved_of}
use gday_old.Chat.Tests.{bits, unbits, accepting, unbits-bits, ok_bytes}
use gday_old.Chat.Terminal.{Lines, single_line, new_line, line, hears, types}
use gday_old.Chat.Terminal.Talk.{Sayable}
use gday_old.Chat.Run.{World, Ran, creator_run, not_creator_run}
use gday_old.Chat.Run.Session.{said, Chatting, creator_run-not_creator_run}

abbrev pub encoded_file : Bool → ℕ → Result ℕ Bytes
encoded_file true size = ok (9 ∷ size ∷ [])
encoded_file false size = err 7

abbrev pub encoded : Message → Result ℕ Bytes
encoded (file_offer none) = err 7
encoded (file_offer (some [])) = err 7
encoded (file_offer (some (meta ∷ []))) = encoded_file (same_text meta.path (codes "b")) meta.size
encoded (file_offer (some (meta ∷ other ∷ metas))) = err 7
encoded (file_accept chosen) = ok (8 ∷ bits chosen)

abbrev pub read_offer : Bytes → Result ℕ Message
read_offer [] = err 1
read_offer (size ∷ s) = ok (file_offer (some (record { path = codes "b"; size = size } ∷ [])))

abbrev pub decoded : Bytes → Result ℕ Message
decoded [] = err 1
decoded (c ∷ s) = if c == 9 then read_offer s else accepting (unbits s)

pub read_back : (msg : Message) (s junk : Bytes) → encoded msg ≡ ok s → decoded (s ++ junk) ≡ ok msg
read_back (file_offer none) s junk e = cc
read_back (file_offer (some [])) s junk e = cc
read_back (file_offer (some (meta ∷ other ∷ metas))) s junk e = cc
read_back (file_accept chosen) s junk e =
    ap (λ t. decoded (t ++ junk)) (sym (ok_bytes (8 ∷ bits chosen) s e))
    ∙ ap accepting (unbits-bits chosen junk)
read_back (file_offer (some (meta ∷ []))) s junk e =
    elim (Bool-cases (same_text meta.path (codes "b"))) [
      | inl named ↦
          ap (λ t. decoded (t ++ junk)) (sym (ok_bytes (9 ∷ meta.size ∷ []) s (rw named at e)))
          ∙ ap (λ t. ok (file_offer (some (record { path = t; size = meta.size } ∷ []))))
              (sym (same_text→eq meta.path (codes "b") named))
      | inr other ↦ let no = rw other at e in cc
    ]

abbrev pub one_file : Codec
one_file = record { to_stdvec = encoded; from_bytes = decoded; from_bytes-to_stdvec = read_back }

-- A line and what follows it.
abbrev pub cut : Bytes → Bytes × Bytes
cut [] = ([], [])
cut (c ∷ s) = let (text, rest) = cut s in if c == new_line then ([], s) else (c ∷ text, rest)

abbrev pub strip_end : Bytes → Bytes
strip_end [] = []
strip_end (c ∷ []) = if c == 13 then [] else c ∷ []
strip_end (c ∷ d ∷ s) = c ∷ strip_end (d ∷ s)

abbrev pub next_line : Bytes → Result ℕ (Option (Bytes × Bytes))
next_line [] = ok none
next_line (c ∷ s) = let (text, rest) = cut (c ∷ s) in ok (some (strip_end text, rest))

cut-line :
    (text rest : Bytes) → single_line text ≡ true → cut (text ++ new_line ∷ rest) ≡ (text, rest)
cut-line [] rest h = refl
cut-line (c ∷ []) rest h = ground arith
cut-line (c ∷ d ∷ text) rest h =
    let first : (c == new_line) ≡ false = ground arith in
    rw (cut-line (d ∷ text) rest (ground arith), first) refl

strip_end-line : (text : Bytes) → single_line text ≡ true → strip_end text ≡ text
strip_end-line [] h = refl
strip_end-line (c ∷ []) h = ground arith
strip_end-line (c ∷ d ∷ text) h = ap (λ s. c ∷ s) (strip_end-line (d ∷ text) (ground arith))

pub next_line-line :
    (text rest : Bytes)
    → true ≡ true
    → single_line text ≡ true
    → next_line (text ++ new_line ∷ rest) ≡ ok (some (text, rest))
next_line-line [] rest utf8 h = refl
next_line-line (c ∷ text) rest utf8 h =
    rw (cut-line (c ∷ text) rest h, strip_end-line (c ∷ text) h) refl

abbrev pub any_bytes : Lines
any_bytes = record { is_utf8 = λ _. true; next_line = next_line; next_line-line = next_line-line }

abbrev pub offers : List LocalFileMeta
offers = record { local_path = codes "/home/b"; public_path = codes "b"; size = 2 } ∷ []

-- The creator says two things, and something blank between them.
abbrev pub creator : World
creator = record {
  profile = debug;
  write = none;
  eof = 1;
  open_file = λ _. ok (5 ∷ 6 ∷ []);
  create_file = ok;
  stored = λ _. none;
  response = err 1;
  wakes =
      types (ok (line (codes "hi")))
      ∷ types (ok (line (codes "  ")))
      ∷ hears
      ∷ types (ok (line (codes "bye")))
      ∷ [];
}

-- The joiner answers 2, and listens twice.
abbrev pub joiner : World
joiner = record {
  profile = release;
  write = none;
  eof = 1;
  open_file = λ _. err 1;
  create_file = ok;
  stored = λ _. none;
  response = ok (codes "2");
  wakes = hears ∷ types (ok (line (codes "yes"))) ∷ hears ∷ [];
}

pub accepts :
    confirm_receive release (file_exists (λ _. none)) (ok (codes "2")) (map to_meta offers)
    ≡ returns (ok (true ∷ []))
unfolding file_exists confirm_receive count_files count_file add_u64 trim join
accepts = refl

pub moves : AllMove (λ _. ok (5 ∷ 6 ∷ [])) ok (accepted_files offers (true ∷ []))
unfolding accepted_files
moves = (record { bytes = 5 ∷ 6 ∷ []; opened = refl; size_eq = refl; name = _; created = refl }, tt)

pub creator_says : All (Sayable any_bytes) (said creator)
unfolding trim
creator_says =
    (record { utf8 = refl; one_line = refl }, (record { utf8 = refl; one_line = refl }, tt))

pub joiner_says : All (Sayable any_bytes) (said joiner)
unfolding trim
joiner_says = (record { utf8 = refl; one_line = refl }, tt)

creator_run-not_creator_run_example :
    (sends : Ran) × (receives : Ran) × (creator_run one_file any_bytes creator receives.written
        (some offers)
      ≡ returns sends)
    × (not_creator_run one_file any_bytes joiner sends.written ≡ returns receives)
    × (receives.saved
        ≡ saved_of (λ _. ok (5 ∷ 6 ∷ [])) ok (accepted_files offers (true ∷ [])) moves)
    × Chatting creator (said joiner) sends
    × Chatting joiner (said creator) receives
unfolding trim accepted_files
creator_run-not_creator_run_example =
    creator_run-not_creator_run one_file any_bytes creator joiner offers (true ∷ [])
      (record { writes = refl; only = tt; say = creator_says; few = omega arith })
      (record { writes = refl; only = tt; say = joiner_says; few = omega arith })
      (record { bytes = 9 ∷ 2 ∷ []; encoded = refl; short = omega arith })
      (record { bytes = 8 ∷ 1 ∷ 2 ∷ []; encoded = refl; short = omega arith }) accepts moves
      (tt, tt) (omega arith)
