-- ===== src/Host.antt =====
-- The machine below the session layer: processes, their output, errors, the rows a stage prints, and the
-- executor.
pub mod Process
pub mod Phase
pub mod Error
pub mod Record
pub mod Effect
pub mod World
pub mod Splitter
pub mod Files
