-- ===== src/Tests.antt =====
-- Concrete runs of the model, and each result at a concrete input.
mod Scheduling
mod Timing
mod Sleeping
mod Joining
mod Running
mod Sounding
mod Returning
mod Timed
mod Handles
mod Again
