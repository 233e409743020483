-- ===== src/Tests.antt =====
-- Runs of the model at concrete inputs, and the theorems at inputs where their conditions hold.
mod Inputs
mod Basics
mod Messages
mod Frames
mod Objects
mod Dispatch
mod Addresses
mod Texts
mod Identities
mod Library
mod Keys
mod Someone
mod Sealed
mod Broadcasts
mod SealedKeys
mod Search
mod Work
mod Parallel
