-- ===== src/Examples.antt =====
-- Runs of the definitions at concrete inputs, and the theorems at such inputs.
mod Requests
mod Queue
mod Ring
mod Message
mod Cache
mod Leader
mod Available
mod Selection
mod Presigns
mod Engine
mod Stream
mod Job
mod Monitor
mod Executor
mod Worker
mod Heart
mod Blame
mod Peers
