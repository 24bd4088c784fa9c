-- ===== src/Lib.antt =====
-- Verification library of NKC, a peer-to-peer messenger in TypeScript.
--
-- The parts of the program, and the files that model them:
--
--   src/storage/outboxStore.ts (Outbox.antt) holds the messages that are to be sent, in an
--   IndexedDB table. src/policies/deliveryPolicy.ts and src/policies/ttl.ts (Delivery.antt) put
--   messages there and settle their acknowledgements, which also moves the cursor of a media
--   transfer (src/storage/mediaTransferStore.ts, Media.antt) and stores a receipt
--   (src/storage/receiptStore.ts, Receipts.antt). src/delivery/deliveryScheduler.ts
--   (Delivery/Scheduler.antt) sweeps the outbox, plans what is due and sends it.
--
--   src/crypto/ratchet.ts (Ratchet.antt) gives each message its key, in two versions: one hash chain
--   for both directions, and chains that are renewed by a key exchange.
--
--   src/net/internalOnion/ carries packets over other peers. routeManager.ts builds a route hop by
--   hop and keeps it alive (InternalOnion/RouteManager.antt: the state and the handlers;
--   RouteManager/Steps/Builds.antt: builds; RouteManager/Steps.antt: timers, public methods and the
--   event loop). relayNetwork.ts sends frames along a chain of peers (InternalOnion/Relay.antt:
--   sending; Relay/Handle.antt: receiving). types.ts is InternalOnion.antt.
--
--   src/net/routeController.ts (RouteController.antt) watches round trips and failures and decides
--   when to fall back to the onion router; src/net/adaptiveTransferWindow.ts (TransferWindow.antt)
--   decides how many chunks of a transfer are sent at once. src/net/fileTransferProtocol.ts
--   (FileTransfer.antt, FileTransfer/Assembler.antt) cuts a sealed chunk into frames and puts it
--   together again.
--
--   src/sync/syncEngine.ts keeps two devices in step. Sync.antt has its frames, capabilities and
--   lamport numbers; Sync/Responses.antt answers a request with events of the log
--   (src/db/repo.ts) and cuts the answer into frames; Sync/Flow.antt sends the frames in a window
--   with retries; Sync/Apply.antt and Sync/Apply/Batches.antt apply what comes in, with the envelopes
--   of src/crypto/box.ts; Sync/Handshake.antt greets a peer and binds it to an identity.
--   src/sync/connectionManager.ts (Sync/Connection.antt, Sync/Connection/Events.antt) opens the
--   connection to a peer, watches it and opens it again.
--
--   src/friends/friendControlFrame.ts (Friends/Frames.antt) signs and checks friend requests. Their
--   three records are made and checked by src/net/friendProtocol/: handshakeManager.ts and
--   contactExchangeManager.ts (Friends/Records.antt), keyAgreementManager.ts (Friends/Keys.antt,
--   Friends/Secrets.antt, Friends/KeyAgreement.antt), with the types and the canonical JSON of
--   src/crypto/canonicalJson.ts in Friends.antt.
--
-- How state and operations correspond to the code:
--
--   Each function of the source is a function of the same name in this library's spelling. A store or
--   an object is a value that the operation takes and returns; the time, random values and callbacks
--   are arguments. The tables of the package Dexie are the record `Table` of Table.antt, with the
--   laws that the program relies on; Table/Memory.antt is a table in a list that meets them.
--   libsodium is the record `Sodium` of Ratchet.antt, with the law of its key exchange. JSON, base64
--   and text decoding are the record `Codec` of InternalOnion/Relay.antt; what the engine calls to
--   apply an event is `ApplyDeps` of Sync/Apply.antt, to greet a peer `HandshakeDeps` of
--   Sync/Handshake.antt, and what the friend protocol calls is `Crypto` of Friends.antt. A JavaScript
--   Map is the list of its entries in their order, `Dict` of Base/Dict.antt. Times and counters are
--   natural numbers; a cursor that the source starts at -1 is held one higher.
--
--   An `await` in the route manager is explicit: the rest of a build is a value that is kept with the
--   pending acknowledgement; settling its promise queues it, and a turn of the event loop ends when
--   the queue is empty (`turn`, `run`). What may happen while the delivery worker awaits a send is
--   part of the sender, which takes and returns the stores. In the flow sessions the sends, timers
--   and acknowledgements are a list of events in any order (`flow_run`), and in the connection
--   manager so are all calls, timers and settled promises (`run` of Sync/Connection/Events.antt).
--
--   The handlers of a greeting, of its acknowledgement and of a read cursor are one step each, where
--   the source awaits a signature or the table between its tests and its writes; calls are taken one
--   after another there.
--
-- Loops and fuel: `settle` runs the queue of settled promises with the number of rounds that its
--   builds can still make, and a turn leaves the queue empty. `advance`, the loop over acknowledged
--   chunks, has one round more than there are chunks to remove, after which the loop has ended by its
--   own test. `skip`, the loop of the ratchets, has the source's own bound on its steps as fuel.
--   `travel` counts the relays of a chain. `pump_loop`, the loop over the window of a flow session,
--   has as many rounds as there are frames, and ends by its own test. All other recursion is
--   structural.
--
--   Of a friend request, the time is a natural number, so negative and fractional times are left out,
--   and so is a key agreement whose role has a text of no role.
--
-- Not modelled: logging, the encryption of rows, the lock that serialises the calls for one transfer,
--   the HTTP client of the relay, the user interface, the Electron processes, and the further parts
--   of src/ (the effects of an event's body on contacts and groups, what follows the checks of a
--   friend request, pairing of devices, transports, installation of Tor).
--
-- Base.antt passes library names on and holds Boolean tests, list and sorting lemmas and `trim`.
-- Tests.antt holds concrete runs.
pub mod Base
pub mod Table
pub mod Outbox
pub mod Media
pub mod Receipts
pub mod Delivery
pub mod Ratchet
pub mod InternalOnion
pub mod RouteController
pub mod Sync
pub mod Friends
pub mod TransferWindow
pub mod FileTransfer
pub mod Tests
