-- ===== src/Tests.antt =====
-- Runs of the code at concrete inputs, for each part of the program.
mod Fields
mod Maps
mod Lists
mod Tasks
mod Loading
mod Sending
mod Removing
mod Formats
mod Messages
mod Listening
mod Allocating
