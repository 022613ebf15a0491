-- ===== src/Tests.antt =====
-- Runs of the definitions at concrete inputs, and each theorem applied to one.
pub mod Samples
mod Buffers
mod Coding
mod Connections
mod Calling
mod Timing
mod Events
mod Serving
mod Scanning
mod WholeCall
mod Logging
mod Threads
mod Configuring
mod Accepting
mod Starting
