-- ===== src/Tests.antt =====
-- Runs of the model on concrete inputs, with a toy instance of the third-party functions.
mod Toy
mod Authentication
mod Messages
mod Pam
mod Config
mod Pairing
mod Host
mod Phone
mod Url
mod Daemon
