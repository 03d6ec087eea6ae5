-- ===== src/Chat/Run.antt =====
-- gday_chat/src/lib.rs: the two sides of a connection between peers. What each reads from the other
-- is one stream; the disk, the terminal and the turns of the chat are arguments.
pub mod Session
pub mod Tests
use gday_old.Base.{ℕ, Bool, true, false, Option, none, some, List, [], ◌∷◌, ◌++◌, map}
use gday_old.Base.Outcome.{Outcome, returns, ◌>>=◌, Profile, Result, ok, err}
use gday_old.Base.Text.{Bytes}
use gday_old.Chat.Protocol.{
  FileMeta, LocalFileMeta, Message, file_offer, file_accept, Error, io, unexpected_message, Codec,
  serialize_into, deserialize_from,
}
use gday_old.Chat.Dialog.{file_exists, confirm_receive, accepted_files}
use gday_old.Chat.Transfer.{Sent, send_files, Saved, receive_files, to_meta}
use gday_old.Chat.Protocol
use gday_old.Chat.Transfer
use gday_old.Chat.Terminal.{Lines, Wakes, Chat, Ending, chats, ends, start_chat}

-- What has been written to the peer, saved, left in the reader and shown, and how the run ends.
-- What a write that fails has written, and what a read that fails has read, is not kept.
pub record Ran : Type 0 where
  pub written : Bytes
  pub saved : List Saved
  pub rest : Bytes
  pub shown : List Bytes
  pub ending : Ending

-- The run ends with an error before the chat.
abbrev pub fails : Bytes → List Saved → Bytes → Error → Ran
fails written saved rest e = record {
  written = written;
  saved = saved;
  rest = rest;
  shown = [];
  ending = ends (err e);
}

-- What the two sides are given: `write` is an error of the writer, `eof` that of a read behind the
-- stream's end.
pub record World : Type 0 where
  pub profile : Profile
  pub write : Option ℕ
  pub eof : ℕ
  pub open_file : Bytes → Result ℕ Bytes
  pub create_file : Bytes → Result ℕ Bytes
  pub stored : Bytes → Option ℕ
  pub response : Result ℕ Bytes
  pub wakes : List Wakes

module _ (codec : Codec) (lines : Lines) (w : World) where
  abbrev pub chat : Bytes → List Saved → Bytes → Ran
  chat written saved reader =
      let c = start_chat lines w.wakes reader in
      record {
        written = written ++ c.written;
        saved = saved;
        rest = c.incoming;
        shown = c.shown;
        ending = c.ending;
      }

  abbrev pub sent_files : Bytes → Bytes → Sent → Ran
  sent_files written reader sent = elim sent.result [
    | ok u ↦ chat (written ++ sent.written) [] reader
    | err e ↦ fails (written ++ sent.written) [] reader (io e)
  ]

  -- `if let Message::FileAccept(chosen) = reply`.
  abbrev pub reply_read : List LocalFileMeta → Bytes → Bytes → Message → Outcome Ran
  reply_read files written reader (file_accept chosen) =
      send_files w.profile w.open_file (accepted_files files chosen) >>= λ s.
      returns (sent_files written reader s)
  reply_read files written reader (file_offer offer) =
      returns (fails written [] reader (unexpected_message (file_offer offer)))

  abbrev pub await_reply :
      List LocalFileMeta → Bytes → Bytes → Result Error Protocol.Received → Outcome Ran
  await_reply files written reader (err e) = returns (fails written [] reader e)
  await_reply files written reader (ok got) = reply_read files written got.rest got.message

  abbrev pub offered : List LocalFileMeta → Bytes → Result Error Bytes → Outcome Ran
  offered files reader (err e) = returns (fails [] [] reader e)
  offered files reader (ok written) =
      await_reply files written reader (deserialize_from codec w.eof reader [])

  abbrev pub offered_nothing : Bytes → Result Error Bytes → Outcome Ran
  offered_nothing reader (err e) = returns (fails [] [] reader e)
  offered_nothing reader (ok written) = returns (chat written [] reader)

  unfoldable pub creator_run : Bytes → Option (List LocalFileMeta) → Outcome Ran
  creator_run reader (some files) =
      offered files reader (serialize_into codec w.write (file_offer (some (map to_meta files))))
  creator_run reader none = offered_nothing reader (serialize_into codec w.write (file_offer none))

  abbrev pub received : Bytes → Transfer.Received → Ran
  received written got = elim got.result [
    | ok u ↦ chat written got.saved got.rest
    | err e ↦ fails written got.saved got.rest (io e)
  ]

  abbrev pub answer_sent : List FileMeta → List Bool → Bytes → Result Error Bytes → Outcome Ran
  answer_sent files chosen reader (err e) = returns (fails [] [] reader e)
  answer_sent files chosen reader (ok written) =
      receive_files w.profile w.create_file (accepted_files files chosen) reader >>= λ r.
      returns (received written r)

  abbrev pub confirmed : List FileMeta → Bytes → Result ℕ (List Bool) → Outcome Ran
  confirmed files reader (err e) = returns (fails [] [] reader (io e))
  confirmed files reader (ok chosen) =
      answer_sent files chosen reader (serialize_into codec w.write (file_accept chosen))

  -- `if let Message::FileOffer(files) = msg`.
  abbrev pub offer_read : Bytes → Message → Outcome Ran
  offer_read reader (file_offer (some files)) =
      confirm_receive w.profile (file_exists w.stored) w.response files >>= confirmed files reader
  offer_read reader (file_offer none) = returns (chat [] [] reader)
  offer_read reader (file_accept chosen) =
      returns (fails [] [] reader (unexpected_message (file_accept chosen)))

  abbrev pub await_offer : Bytes → Result Error Protocol.Received → Outcome Ran
  await_offer reader (err e) = returns (fails [] [] reader e)
  await_offer reader (ok got) = offer_read got.rest got.message

  unfoldable pub not_creator_run : Bytes → Outcome Ran
  not_creator_run reader = await_offer reader (deserialize_from codec w.eof reader [])
