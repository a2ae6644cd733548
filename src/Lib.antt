-- ===== src/Lib.antt =====
-- PrintDrop: a receiver on a computer takes one file from a phone through a relay. It opens a
-- short-lived session, shows its address as a QR code, and then handles the frames that arrive:
-- FILE_BEGIN, CHUNK and FILE_END. This library models the C core of the receiver, in src/ and
-- include/printdrop/, and the Windows devices that it writes the file with.
--
-- The parts, from the wire inwards:
-- * Protocol (src/protocol.c), Frame (src/frame.c), Ack (src/ack.c), FileBegin (src/file_begin.c) and
--   RelayMessage (src/relay_message.c): the messages and their codecs. The codecs write into a buffer
--   with `store` and read it with `at`; Bytes has both, and the big-endian numbers.
-- * Filename (src/filename.c): the sanitizer of the name that FILE_BEGIN carries.
-- * Integrity (src/integrity.c), with Hex: digests. The hash itself is a parameter, `IntegrityOps`.
-- * FileReceive (src/file_receive.c): one file into a sink, with an optional hash; FileReceive.Laws
--   states what a sink and a hash promise, FileReceive.Run what a receiver then promises,
--   FileReceive.Closing what it leaves open of any sink and hash.
-- * ReceiverProtocol (src/receiver_protocol.c): the order of the messages, over a handler.
-- * ReceiverLoop (src/receiver_loop.c): receives frames, hands them to the protocol and acknowledges
--   them.
-- * ReceiverSession (src/receiver_session.c), with SecureZero (src/secure_zero.c): the session's
--   credentials and its life; SessionUrl (src/session_url.c): the address it is reached at; JobId
--   (src/job_id.c): the name of a print job.
-- * Transfer (src/session.c): the progress of a transfer; Transport (src/transport.c): a guarded
--   connection.
-- * RelayEndpoint (src/relay_endpoint.c) and RelayRegistration (src/relay_registration.c), with
--   BaseUrl, the tests of a base URL in relay_endpoint.c, while RelayRegistration has its own as the
--   source has: the addresses at the relay and the request that registers a session. Qr (src/qr.c): the QR code of an address.
-- * Win32FileSink (src/win32_file_sink.c), Win32Sha256 (src/win32_sha256.c) and Win32Random
--   (src/win32_random.c): the sink, the hash and the random source on Windows, whose calls are
--   parameters, tables of operations on a state of the system. Win32FileSink.Files states what the file
--   calls promise and which answers a sink may give; Win32Sha256.Balance what the cryptography opens
--   and closes. Resources is the account of handles, blocks and lists that this is told in.
-- * Win32ReceiveHandler (src/win32_receive_handler.c): the handler of the protocol, a FileReceive on a
--   Win32FileSink with a Win32Sha256. The laws of a handler that ReceiverLoop is proved for ask that
--   nothing is open after an abort; this handler falls short of them after a FILE_END that comes too
--   early, as Win32ReceiveHandler.EarlyEnd shows, and otherwise closes what it has opened, as
--   Win32ReceiveHandler.Closing shows.
-- * Win32RelayClient (src/win32_relay_client.c): the WebSocket connection to the relay, on which the
--   loop sends and receives, over the calls of libcurl, which are a parameter too.
-- Prelude holds what the modules share; Tests applies the theorems to concrete inputs.
--
-- How the code is modelled. A C function keeps its name, less `pd_` and the component's prefix. A
-- pointer that the code compares with NULL is an `Option`; an output argument is given with its
-- content before the call and returned with its content after it; a buffer is the list of its bytes.
-- State is passed explicitly. A table of function pointers is a record of functions on a world, which
-- stands for what the table's context points to, and is `none` where the table is NULL or incomplete.
-- Numbers are natural numbers, with the wrap-around of the C type written out where it can happen;
-- sizes and pointers have 64 bits. A C enum that the code casts from a byte is a number. Copies of a
-- random buffer that the code wipes before it returns are not kept. Loops recurse on the list that
-- they walk over, except the loop of ReceiverLoop, which has no bound of its own: it runs on fuel, one
-- unit for a frame, and gives `none` where that is not enough; fuel for one frame more than the
-- connection still gives is enough, since each round that goes on has received one. The loops of
-- Win32RelayClient, which go on as long as the socket is only busy, run on fuel likewise, one unit for
-- a call of libcurl.
--
-- Not modelled: src/win32_main.c, src/win32_relay_registration.c and src/win32_receiver_runtime.c, the
-- window, the HTTP request and the threads of Windows; of src/win32_relay_client.c the global set-up of
-- libcurl and the texts that are only shown; the QR encoder, which is another library; the relay in
-- Go and the web sender in JavaScript, which are other programs.
pub mod Prelude
pub mod Bytes
pub mod Protocol
pub mod Frame
pub mod Ack
pub mod Hex
pub mod SecureZero
pub mod ReceiverSession
pub mod Integrity
pub mod RelayMessage
pub mod FileBegin
pub mod Filename
pub mod FileReceive
pub mod Transfer
pub mod JobId
pub mod SessionUrl
pub mod ReceiverProtocol
pub mod ReceiverLoop
pub mod Transport
pub mod BaseUrl
pub mod RelayEndpoint
pub mod RelayRegistration
pub mod Resources
pub mod Qr
pub mod Win32FileSink
pub mod Win32Sha256
pub mod Win32Random
pub mod Win32ReceiveHandler
pub mod Win32RelayClient
pub mod Tests
