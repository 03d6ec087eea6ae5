-- ===== src/Lib.antt =====
-- gday lets two people who share a short code exchange messages and files directly, through whatever
-- lies between them. A peer asks a public server to create a room, or to join the room of a code
-- (gday_hole_punch/src); the server collects the contacts of both and sends each to the other; the
-- peers then connect to each other and talk through a stream of encrypted frames
-- (gday_encryption/src), over which chat lines and files are sent (gday_chat/src).
--
-- Base32 is gday/src/base32.rs, the codes: `str_to_u32`, `u32_to_str`, `to_string` and `from_string`
-- under their names. A text is a list of ASCII bytes. A computation returns, exits the process, or
-- panics (`Base.Outcome`), and the arithmetic of u32 is that of a debug or of a release build, as the
-- `Profile` says. The loop of `u32_to_str` recurs on the accessibility of its number, so it needs no
-- fuel.
--
-- HolePunch is gday_hole_punch/src. `HolePunch.Contact` has the data of lib.rs, and
-- `HolePunch.Messenger` its Messenger, which frames messages over a buffer of fixed length, with
-- postcard as a parameter.
--
-- `HolePunch.State` is server/global_state.rs, the state that all tasks of the server share behind a lock: `create_room`,
-- `room_exists`, `update_client`, `set_client_done`, and the timeouts, each a function on `State`. A
-- HashMap is an association list (`Base.Assoc`). A oneshot channel is a number, and `channels` says
-- what its receiver would find: nothing yet, a value, or that the sender was dropped. The tasks that
-- sleep are a list of timers, in seconds; `wake` runs one whose time has come and `elapse` lets time
-- pass, so any order of the runtime is a sequence of steps. The draws of the random number generator
-- are an argument of `create_room`, and a list that holds no free number is told apart from a result:
-- the loop is then still running. `HolePunch.Handler` is server/connection_handler.rs: `start`,
-- `handle_message` and what they call are in a state monad over the shared state and the stream of
-- one client, and `resume` is the poll of the receiver that DoneSending awaits.
-- `HolePunch.Handler.Server` runs any number of connections over one state. How a write ends and what
-- `peer_addr` returns are arguments. `HolePunch.Throttle` is the part of server.rs that serves an
-- address at most once in five seconds: an event is what happens under one hold of the lock of
-- `blocked`, so that other events may come between the removal of an address and its insertion, and
-- handing a stream to the TLS handshake is an entry of a list. `HolePunch.Service` is server.rs whole, with the handshakes and the connections behind them,
-- and `GdayServer` is gday_server/src/main.rs around it.
--
-- `HolePunch.Client` is client.rs, client/contact_sharer.rs and server_connection.rs: what a client
-- writes on its lines to the server, a state monad over both, with the server's replies as an
-- argument. A line without a further reply makes the client wait; `HolePunch.Client.Connection` has
-- the local addresses. `HolePunch.Peer` is
-- client/peer_connector.rs: which connections are tried, and `verify_peer`, with SPAKE2 and SHA-256
-- as parameters. `HolePunch.Peer.Race` has the loops of `try_connect` and `try_accept`, each over a
-- list of what its rounds meet, and `connect_to_peer`, with `select_ok` as a parameter that may choose
-- any future that succeeds; a call that does not end leaves its future pending.
-- `HolePunch.State.Book` is an abstract view of the shared state, a function from rooms and sides to
-- the contact that has been told, which forgets the channels and the order of the map, and the
-- `View` of `HolePunch.State.Looks` is the state up to that order, as a quotient.
--
-- Encryption is gday_encryption/src. `Encryption.HelperBuf` is the buffer of lib.rs, with the
-- capacity of its BytesMut as a field, and `Encryption.Writer` is writer.rs. What the inner writer
-- answers to the calls of one poll is a list; behind its end the inner writer is pending, so the loop
-- of `poll_flush_local` recurs on that list. The cipher is the crate chacha20poly1305, a parameter
-- (`Encryption.Frame.Cipher`): the n-th message is sealed under the n-th nonce, sealing adds sixteen
-- bytes or fails, and opening what was sealed gives the message. The nonce that is sent first is left
-- out. The failure of the cipher ends a stream, and nothing is claimed of what comes behind it.
-- `Encryption.Reader` is reader.rs. The bytes that the inner reader will still read are a field, and
-- its answers say how many of them each call reads; a poll that needs more answers than it is given is
-- `running`. The loop of `decrypt_all_full_chunks` is on fuel: a round reads four bytes at least, so
-- one more than the unread bytes is enough, and what is proved of the polls covers that it is.
-- `Encryption.RoundTrip` puts a writer and a reader at the two ends of one connection, and
-- `Encryption.Session` polls the writer to write and to flush, in any order.
--
-- Chat is gday_chat/src. `Chat.Protocol` is protocol.rs, the messages and their frames; postcard is a
-- parameter, which reads back what it has encoded and leaves bytes behind it alone. `Chat.Dialog` is
-- `confirm_receive` of file_dialog.rs, with the answers of the file system and of the terminal as
-- arguments, and the picking of the accepted files that both runs of lib.rs do. `Chat.Overlap` is the
-- test of `confirm_send` that no path lies in another, and its question. `Chat.Transfer` is
-- `send_files` and `receive_files` of file_transfer.rs, on a stream that does not fail. What is saved
-- is a disk: a file that is created again under the name that the file system knows it by is emptied
-- first (`Chat.Transfer.Disk`). `Chat.Transfer.Progress` is the writer that tells the progress bar.
-- `Chat.Offer` is the rest of file_dialog.rs, `get_file_metadatas` and `confirm_send`, over a file
-- system that is a record of functions; reading a directory depends on how many are open above it. The
-- walk is on fuel, since links can make it go round: one more than the depth of the directories, or
-- than the limit to those that are open, is enough, and what is proved of both covers that it is.
-- `Chat.Terminal` is chat.rs: the two loops take turns in any order, given as a list, until one of
-- them ends. `Chat.Run` is `creator_run` and `not_creator_run` of lib.rs, from the offer to the chat,
-- each a function of all that it will read from the other side.
--
-- Gday is gday/src/main.rs: connecting to the server by server_connector.rs
-- (`Gday.ServerConnector`), `start_room`, `join_room` and `establish_peer_connection` over the parts
-- above, and `Gday.Program` has `main`. A process goes on,
-- exits, aborts, or waits for what does not come. The encrypted stream between the peers is taken
-- as the cleartext that one writes and the other reads, which `Encryption.Session` is about.
--
-- Base has what the parts share: lists over native numbers, maps, outcomes and texts.
--
-- Not modelled: what is printed; the parsers of the command lines; how the progress bar is drawn; the
-- options of sockets, whose errors the code drops; rustls and tokio, which are other people's.
pub mod Base
pub mod Base32
pub mod HolePunch
pub mod Encryption
pub mod Chat
pub mod Gday
pub mod GdayServer
