-- ===== src/Tools.antt =====
-- pkg/tools/tools.go.
pub mod Range
pub mod Mac
pub mod Count
pub mod Host
