-- ===== src/Tests.antt =====
-- Runs of the code at small inputs, and the theorems applied at them.
mod Router
mod Http
mod Messages
mod Responses
mod ThreadPool
mod Client
mod Server
mod Streams
mod ClientRun
mod Programs
mod Lifecycle
mod Undeclared
mod Threads
mod Mains
mod Expiry
mod Builders
mod Refusals
mod Tls
