-- ===== src/Tests.antt =====
-- Runs of the model on concrete inputs, and each theorem at one of them.
mod Cache
mod Limits
mod Requests
mod Shortening
mod Service
mod Messages
mod Routes
mod Stores
mod Database
mod Production
mod Pages
mod Racing
mod Scores
mod Events
mod Overlaps
mod Bursts
mod Workers
