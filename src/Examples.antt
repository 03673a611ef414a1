-- ===== src/Examples.antt =====
-- Concrete inputs: each theorem with hypotheses applied where they hold, and tests of the models on
-- inputs of the repository's own tests.
mod Network
mod Proxy
mod Wire
mod Streaming
mod Daemon
mod Routes
mod Storage
mod Agent
mod Firecracker
mod Docker
mod Local
mod Sdk
