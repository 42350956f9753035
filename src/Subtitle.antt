-- ===== src/Subtitle.antt =====
-- modules/subtitle: subtitle times, the builder that is fed with boundary events, and SRT text.
pub mod Time
pub mod Composer
pub mod Builder
