-- ===== src/Pipeline.antt =====
-- 12_channels/p3.c: a shell that runs pipelines. CommandLine: how a line is taken apart and how the
-- commands are connected; Words: the words that strtok_r finds; Spaces: cutting off the spaces around a
-- command; Lines: what a line is read as.
pub mod CommandLine
pub mod Words
pub mod Spaces
pub mod Lines
mod Examples
