-- ===== src/Examples.antt =====
-- Concrete inputs: the theorems applied where their hypotheses hold, and tests of the definitions.
mod Data
mod Values
mod Queue
mod Replay
mod Ledger
mod Interaction
mod Attachment
mod Catalog
mod Archive
mod State
mod Protocol
