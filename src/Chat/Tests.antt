-- ===== src/Chat/Tests.antt =====
-- Tests of gday_chat, with a codec that keeps a message's list of answers only.
use gday_old.Base.{
  some, ◌≢◌, sym, ◌∙◌, ap, ℕ, zero, suc, sym, ◌∙◌, ◌<◌, ◌≡◌, ◌^◌, refl, ap, Bool, true, false, none,
  List, [], ◌∷◌, ◌++◌, map, length, take, ◌==◌, arith, if◌then◌else◌,
}
use gday_old.Base.Outcome.{add_u64, returns, debug, release, Result, ok, err}
use gday_old.Base.Text.{same_text, same_text_refl, Bytes, codes, trim}
use gday_old.Chat.Protocol.{
  FileMeta, LocalFileMeta, Message, file_offer, file_accept, Codec, Received, serialize_into,
  deserialize_from,
}
use gday_old.Chat.Protocol.Framing.{Reads, deserialize_from-serialize_into}
use gday_old.Chat.Dialog.{confirm_receive, count_files, count_file, accepted_files}
use gday_old.Chat.Dialog.Choice.{accepted_count, confirm_receive-accepted}
use gday_old.Chat.Transfer
use gday_old.Chat.Transfer.{join, send_files, receive_files, to_meta}
use gday_old.Chat.Transfer.Disk.{Distinct, held}
use gday_old.Chat.Transfer.Cut.{destination, AllCreated, receive_files-last}
use gday_old.Chat.Transfer.Delivery.{AllMove, saved_of, receive_files-send_files}

-- Answers as bytes: 1 for yes, 0 for no, and 2 behind the last.
abbrev pub bits : List Bool → Bytes
bits [] = 2 ∷ []
bits (true ∷ s) = 1 ∷ bits s
bits (false ∷ s) = 0 ∷ bits s

abbrev more : Bool → Result ℕ (List Bool) → Result ℕ (List Bool)
more b (ok s) = ok (b ∷ s)
more b (err e) = err e

abbrev pub unbits : Bytes → Result ℕ (List Bool)
unbits [] = err 1
unbits (zero ∷ s) = more false (unbits s)
unbits (suc zero ∷ s) = more true (unbits s)
unbits (suc (suc c) ∷ s) = ok []

abbrev pub accepting : Result ℕ (List Bool) → Result ℕ Message
accepting (ok s) = ok (file_accept s)
accepting (err e) = err e

abbrev encoded : Message → Result ℕ Bytes
encoded (file_offer files) = err 7
encoded (file_accept chosen) = ok (bits chosen)

pub unbits-bits : (s : List Bool) (junk : Bytes) → unbits (bits s ++ junk) ≡ ok s
unbits-bits [] junk = refl
unbits-bits (true ∷ s) junk = ap (more true) (unbits-bits s junk)
unbits-bits (false ∷ s) junk = ap (more false) (unbits-bits s junk)

pub ok_bytes : (a b : Bytes) → (let r : Result ℕ Bytes = ok a in r ≡ ok b) → a ≡ b
ok_bytes a b e = cc

pub read_back :
    (msg : Message) (s junk : Bytes) → encoded msg ≡ ok s → accepting (unbits (s ++ junk)) ≡ ok msg
read_back (file_offer files) s junk e = cc
read_back (file_accept chosen) s junk e =
    ap (λ t. accepting (unbits (t ++ junk))) (sym (ok_bytes (bits chosen) s e))
    ∙ ap accepting (unbits-bits chosen junk)

-- Offers have no encoding in it.
abbrev answers_only : Codec
answers_only = record {
  to_stdvec = encoded;
  from_bytes = λ s. accepting (unbits s);
  from_bytes-to_stdvec = read_back;
}

deserialize_from-serialize_into_example :
    (written : Bytes) × (serialize_into answers_only none (file_accept (true ∷ false ∷ []))
      ≡ ok written)
    × (got : Received) × (deserialize_from answers_only 9
          (written ++ codes "hi")
          (5 ∷ 5 ∷ 5 ∷ 5 ∷ [])
        ≡ ok got)
    × Reads (file_accept (true ∷ false ∷ [])) (codes "hi") (5 ∷ 5 ∷ 5 ∷ 5 ∷ []) got
deserialize_from-serialize_into_example =
    deserialize_from-serialize_into answers_only 9 (file_accept (true ∷ false ∷ []))
      (bits (true ∷ false ∷ [])) (codes "hi") (5 ∷ 5 ∷ 5 ∷ 5 ∷ []) refl (omega arith)

abbrev old_file : FileMeta
old_file = record { path = codes "a"; size = 1 }

abbrev new_file : FileMeta
new_file = record { path = codes "b"; size = 2 }

-- The first of two files is there already.
abbrev has_first : FileMeta → Bool
has_first meta = meta.size == 1

confirm_receive-accepted_example :
    (chosen : List Bool) × (confirm_receive debug has_first
        (ok (codes "2"))
        (old_file ∷ new_file ∷ [])
      ≡ returns (ok chosen))
    × (accepted_files (old_file ∷ new_file ∷ []) chosen
        ≡ take
            (accepted_count has_first (codes "2") (old_file ∷ new_file ∷ []))
            (old_file ∷ new_file ∷ []))
confirm_receive-accepted_example =
    confirm_receive-accepted debug has_first (codes "2") (old_file ∷ new_file ∷ []) (omega arith)

-- Option 2 asks for the file that is there already, and not for the new one.
test_accept_new :
    confirm_receive debug has_first (ok (codes "2")) (old_file ∷ new_file ∷ [])
    ≡ returns (ok (true ∷ []))
unfolding confirm_receive count_files count_file add_u64 trim
test_accept_new = refl

abbrev first_file : LocalFileMeta
first_file = record { local_path = codes "/home/a"; public_path = codes "a"; size = 2 }

abbrev second_file : LocalFileMeta
second_file = record { local_path = codes "/home/b"; public_path = codes "b"; size = 1 }

abbrev on_disk : Bytes → Result ℕ Bytes
on_disk path = ok (if length path == 7 then 1 ∷ 2 ∷ [] else [])

picked-AllMove :
    AllMove on_disk ok (accepted_files (second_file ∷ first_file ∷ []) (false ∷ true ∷ []))
unfolding accepted_files
picked-AllMove =
    (record { bytes = 1 ∷ 2 ∷ []; opened = refl; size_eq = refl; name = _; created = refl }, tt)

receive_files-send_files_example :
    (written : Bytes) × (send_files debug on_disk
        (accepted_files (second_file ∷ first_file ∷ []) (false ∷ true ∷ []))
      ≡ returns (record { written = written; result = ok tt }))
    × (receive_files release ok
          (accepted_files (map to_meta (second_file ∷ first_file ∷ [])) (false ∷ true ∷ []))
          (written ++ codes "chat")
        ≡ returns (record {
          saved =
              saved_of on_disk ok
                (accepted_files (second_file ∷ first_file ∷ []) (false ∷ true ∷ []))
                picked-AllMove;
          rest = codes "chat";
          result = ok tt;
        }))
unfolding accepted_files
receive_files-send_files_example =
    receive_files-send_files on_disk ok debug release (second_file ∷ first_file ∷ [])
      (false ∷ true ∷ []) (codes "chat") picked-AllMove picked_distinct picked_fits
  where
    picked_distinct : Distinct (
        saved_of on_disk ok
          (accepted_files (second_file ∷ first_file ∷ []) (false ∷ true ∷ []))
          picked-AllMove)
    picked_distinct = (tt, tt)

    picked_fits : 2 < 2 ^ 64
    picked_fits = omega arith

-- Every path names a file of its own.
abbrev created : Bytes → Result ℕ Bytes
created = ok

apart : destination old_file ≢ destination new_file
unfolding join
apart e =
    let found =
      ap (λ s. same_text (destination old_file) s) (sym e)
      ∙ same_text_refl (destination old_file) in
    cc (sym found)

-- The stream ends within the first file.
abbrev ahead_created : AllCreated created (new_file ∷ old_file ∷ [])
ahead_created = ((_, refl), ((_, refl), tt))

-- The file b is offered twice: its first two bytes are gone.
receive_files-last_example :
    (r : Transfer.Received) × (receive_files debug created
        (new_file ∷ new_file ∷ old_file ∷ [])
        (1 ∷ 2 ∷ 3 ∷ 4 ∷ 5 ∷ [])
      ≡ returns r)
    × (r.result ≡ ok tt)
    × (held (destination new_file) r.saved ≡ some (3 ∷ 4 ∷ []))
receive_files-last_example =
    receive_files-last created (destination new_file) debug (new_file ∷ []) new_file (old_file ∷ [])
      (1 ∷ 2 ∷ 3 ∷ 4 ∷ 5 ∷ []) ((_, refl), ((_, refl), ((_, refl), tt))) refl
      ((λ e. apart (cc)), tt) (omega arith)
