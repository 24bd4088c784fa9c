-- ===== src/Tests.antt =====
-- Concrete runs of the models, at which the hypotheses of the theorems hold.
mod Outbox
mod Delivery
mod Media
mod Receipts
mod Ratchet
mod RouteManager
mod Relay
mod Routes
mod FileTransfer
mod Sync
mod SyncApply
mod Texts
mod Codec
mod Acceptance
mod Connection
mod Friends
mod Handshake
