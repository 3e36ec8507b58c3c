-- ===== src/Cleaner.antt =====
-- The verification of the repositories in the cache against the checksums of their indexes:
-- pkg/debrepocleaner/debrepocleaner.go and cmd/goaptcacher/repoverify.go.
pub mod Checksum
pub mod Release
pub mod Packages
pub mod Verify
pub mod Repositories
pub mod Found
pub mod Covered
pub mod Indexes
pub mod Matches
pub mod Verified
pub mod Reasons
pub mod Justified
pub mod Reported
pub mod Strongest
pub mod Preferred
mod Tests
