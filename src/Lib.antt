-- ===== src/Lib.antt =====
-- hap-rust, a HomeKit Accessory Protocol controller in Rust: the model of its codecs, its encrypted
-- sessions and its protocol state machines, and what is proved of them.
--
-- Parts, each with the file or folder that models it:
-- - Common: list, byte and result helpers. `Result` is Rust's `Result` with a third case `stuck`, which
--   no Rust value has: a loop of the model that has used up its fuel.
-- - Tlv8 (crates/hap-tlv8/src): `Tlv8.Reader.parse` is `Tlv8Reader::parse`, `Tlv8.Writer.push` and its
--   kin are the methods of `Tlv8Writer`, `Tlv8.Map` is `Tlv8Map`. Everything else stands on this codec.
-- - Crypto (crates/hap-crypto/src): `Crypto.Aead` and `Crypto.Primitives` are the wrappers of aead.rs,
--   kdf.rs, keys.rs and x25519.rs; the ciphers, hashes and signatures of third-party crates are
--   parameters, with the laws that their documentation gives. `Crypto.PairVerify` is pair_verify.rs:
--   `start` and `handle` are the methods of `PairVerifyClient`. `Crypto.PairSetup` is pair_setup.rs,
--   `PairSetupClient` with the same two methods. `Crypto.Broadcast` is broadcast.rs, over a stream cipher
--   and an authenticator. `Crypto.Srp` is srp.rs, the client and the server, over
--   natural numbers. `Crypto.Plain` has simple functions that stand for the parameters in runs.
-- - Pairing (crates/hap-pairing/src): `Pairing.Admin` is pairings.rs, over a session that answers a
--   posted body. `Pairing.Store` is store.rs: the records and their texts, and in `Pairing.Store.File` the
--   methods of `JsonFileStore`, over serde_json and the ends of the file system's calls.
-- - Transport (crates/hap-transport/src): `Transport.Record` is record.rs, `Transport.Session` the sending
--   loop of `SecureSession::request` and the frame loop of `reader_task`.
--   `Transport.Http` is http.rs with `demux_messages` of session.rs, and `Transport.Text` the functions of
--   the standard library that it calls. A `usize` has 64 bits, its sums wrap, and a slice out of range is
--   the failure `panicked`.
-- - Thread (crates/hap-thread/src/pdu.rs and crates/hap-thread-dut/src/pdu.rs): the PDU codecs of the
--   controller and of the software accessory that talks to it. `Thread.Session` is session.rs of
--   crates/hap-thread, and `Thread.Coap` is coap.rs: the reader task's routing, the exchange and block-wise
--   responses, over what each wait brings and how each send ends.
-- - Dut (crates/hap-thread-dut/src): the software accessory. `Dut.Session` is its end of a CoAP session,
--   `Dut.Verify` and `Dut.Setup` its side of the two pairing exchanges (pairing.rs); `Dut.Agreement` runs
--   the two sides of Pair Verify against each other.
-- - Ble (crates/hap-ble/src): `Ble.Pdu` is the codec of pdu.rs with `request` and `request_secure`, over
--   a GATT link that is a parameter (`GattConnection`); `Ble.Session` is session.rs, `Ble.Advert` is
--   advert.rs and `Ble.Values` the value codec of db.rs. `Ble.Accessory.Watch` has the two tasks of
--   `watch_sleepy_events_with_source` (accessory.rs): `on_advert` is a round of the advertisement task,
--   `on_read` the end of a read of the poll task, and `Step` their interleaving.
-- - Controller (crates/hap-controller/src): `Controller.SetupPayload` is setup_payload.rs, and
--   `Controller.Reconnect` the foreground request of reconnect.rs, with its sessions known by numbers.
--   `Controller.Supervisor` is the task that `IpHandle::build` spawns (handle.rs): each change of its state
--   is an operation, and `Run` is a life of the task between two calls of `accessories`.
--   `Controller.Handle` is the cached tree of `IpHandle`, and `Controller.Discovery` is discover_until.rs
--   and payload_match.rs with setup.rs of crates/hap-crypto/src.
-- - Model (crates/hap-model/src): the error type that the transports share, and the formats and values of
--   format.rs, with the machine's floats as a parameter. `Model.Json` is the reading and writing of values
--   in JSON (format.rs and characteristics.rs), over the numbers of serde_json and over base64.
--
-- A byte is a natural number, with `IsByte` where a theorem needs its bound; a `u64` counter wraps by
-- `% 2 ^ 64`. A position in a slice is modelled by the elements from it on. A method that takes
-- `&mut self` returns the state as it stands afterwards, on its error paths too.
--
-- Loops on fuel take the length of their input (or one more): each round takes a byte at least. The loop
-- that reads the fragments of a Bluetooth response has 65 rounds, since the code gives up at 64
-- fragments; the loops that pad to a block of 16 bytes have 15.
--
-- Not modelled: sockets, channels, locks and timers of the async runtime, the readers that serde
-- derives and the builders of requests in crates/hap-model, the generated type tables, the number library under SRP, mDNS and Bluetooth
-- discovery, and the developer tools under xtask.
pub mod Common
pub mod Ble
pub mod Controller
pub mod Crypto
pub mod Dut
pub mod Model
pub mod Pairing
pub mod Thread
pub mod Tlv8
pub mod Transport
