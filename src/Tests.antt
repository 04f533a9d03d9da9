-- ===== src/Tests.antt =====
-- Concrete libraries and data, the program run on them, and the theorems at that data.
mod Models
mod Resources
mod ApiTests
mod DiffTests
mod ValidatorTests
mod ClientTests
mod TargetTests
mod ProcessTests
mod CopyTests
mod Server
mod ServerTests
mod ReturnTests
mod EditTests
