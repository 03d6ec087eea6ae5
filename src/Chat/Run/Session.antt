-- ===== src/Chat/Run/Session.antt =====
-- The two sides of gday_chat/src/lib.rs, each of which reads what the other writes.
use gday_old.Base.{
  ◌^◌, ◌≤◌, ◌<◌, ◌≡◌, refl, none, some, Bool, List, [], ◌++◌, append_assoc, map, length, take, drop,
  All,
}
use gday_old.Base.Outcome.{returns, ok, u32_mod}
use gday_old.Base.Text.{Bytes}
use gday_old.Chat.Protocol.{LocalFileMeta, Message, file_offer, file_accept, Codec}
use gday_old.Chat.Protocol.Framing.{deserialize_from-serialize_into}
use gday_old.Chat.Dialog.{file_exists, confirm_receive, accepted_files}
use gday_old.Chat.Transfer.{to_meta}
use gday_old.Chat.Transfer.Disk.{Distinct}
use gday_old.Chat.Transfer.Delivery.{AllMove, saved_of, total, receive_files-send_files}
use gday_old.Chat.Terminal.{Lines, chats}
use gday_old.Chat.Terminal.Talk.{
  typed, not_blank, sent, hearings, OnlyLines, Sayable, start_chat-chats,
}
use gday_old.Chat.Run.{World, Ran, creator_run, not_creator_run}

-- A message that postcard encodes in fewer than 2^32 bytes.
pub record Encodes (codec : Codec) (msg : Message) : Type 0 where
  pub bytes : Bytes
  pub encoded : codec.to_stdvec msg ≡ ok bytes
  pub short : length bytes < u32_mod

-- What a user says.
abbrev pub said : World → List Bytes
said w = not_blank (typed w.wakes)

-- A side whose writes succeed and whose user only types lines, which can be sent, and that listens
-- at most once for each of the peer's.
pub record Talks (lines : Lines) (w : World) (texts : List Bytes) : Type 0 where
  pub writes : w.write ≡ none
  pub only : OnlyLines w.wakes
  pub say : All (Sayable lines) (said w)
  pub few : hearings w.wakes ≤ length texts

-- The run has come to the chat, where the first lines of the peer have been shown.
abbrev pub Chatting : World → List Bytes → Ran → Type 0
Chatting w texts r =
    (r.shown ≡ take (hearings w.wakes) texts)
    × (r.rest ≡ sent (drop (hearings w.wakes) texts))
    × (r.ending ≡ chats)

-- Two sides whose writes succeed, one of which offers files, and each of which reads what the other
-- writes. If the offer and the answer can be encoded, the answer is what the joiner's dialog gives, and
-- the accepted files are as they were offered, can be created, no two of them as one file, and have
-- sizes that fit together in a u64, then both come to the chat: the joiner's disk has the accepted
-- files, byte for byte and in order, and each side shows, in order and none left out, as many of the lines that the other's user typed and
-- that are not blank as it has listened for. The users only type single lines.
pub creator_run-not_creator_run :
    (codec : Codec) (lines : Lines) (a b : World) (files : List LocalFileMeta) (chosen : List Bool)
    → Talks lines a (said b)
    → Talks lines b (said a)
    → Encodes codec (file_offer (some (map to_meta files)))
    → Encodes codec (file_accept chosen)
    → confirm_receive b.profile (file_exists b.stored) b.response (map to_meta files)
      ≡ returns (ok chosen)
    → (ms : AllMove a.open_file b.create_file (accepted_files files chosen))
    → Distinct (saved_of a.open_file b.create_file (accepted_files files chosen) ms)
    → total (accepted_files files chosen) < 2 ^ 64
    → (sends : Ran) × (receives : Ran) × (creator_run codec lines a receives.written (some files)
        ≡ returns sends)
      × (not_creator_run codec lines b sends.written ≡ returns receives)
      × (receives.saved ≡ saved_of a.open_file b.create_file (accepted_files files chosen) ms)
      × Chatting a (said b) sends
      × Chatting b (said a) receives
unfolding creator_run not_creator_run
creator_run-not_creator_run codec lines a b files chosen ta tb offer accept answer ms distinct
      fits =
    let (stream, sends, receives) =
      receive_files-send_files a.open_file b.create_file a.profile b.profile files chosen
        (sent (said a)) ms distinct fits in
    let (offer_bytes, offer_written, offer_got, offer_found, offer_reads) =
      deserialize_from-serialize_into codec b.eof (file_offer (some (map to_meta files)))
        offer.bytes (stream ++ sent (said a)) [] offer.encoded offer.short in
    let (accept_bytes, accept_written, accept_got, accept_found, accept_reads) =
      deserialize_from-serialize_into codec a.eof (file_accept chosen) accept.bytes (sent (said b))
        [] accept.encoded accept.short in
    let chat_a = start_chat-chats lines a.wakes (said b) ta.only tb.say ta.few in
    let chat_b = start_chat-chats lines b.wakes (said a) tb.only ta.say tb.few in
    (
      record {
        written = (offer_bytes ++ stream) ++ sent (said a);
        saved = [];
        rest = sent (drop (hearings a.wakes) (said b));
        shown = take (hearings a.wakes) (said b);
        ending = chats;
      },
      record {
        written = accept_bytes ++ sent (said b);
        saved = saved_of a.open_file b.create_file (accepted_files files chosen) ms;
        rest = sent (drop (hearings b.wakes) (said a));
        shown = take (hearings b.wakes) (said a);
        ending = chats;
      },
      rw (
        ta.writes, offer_written, accept_found, accept_reads.message_eq, accept_reads.rest_eq,
        sends, chat_a,
      ),
      rw (
        append_assoc offer_bytes stream (sent (said a)),
        tb.writes,
        offer_found,
        offer_reads.message_eq,
        offer_reads.rest_eq,
        answer,
        accept_written,
        receives,
        chat_b,
      ),
      refl,
      (refl, refl, refl),
      (refl, refl, refl),
    )
