-- ===== src/Media.antt =====
-- modules/media: the search for the player, its calls, and the processes.
pub mod ExecutableDiscovery
pub mod ProcessRunner
pub mod FfmpegAudioConverter
