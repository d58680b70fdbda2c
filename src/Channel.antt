-- ===== src/Channel.antt =====
-- service/mirror_service.go with model/mirror_channel.go: the channels that publish a repository's tags
-- to targets, their runs and the matrix of versions.
pub mod Entities
pub mod Tags
pub mod Runs
pub mod Targets
pub mod Versions
pub mod Tests
