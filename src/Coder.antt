-- ===== src/Coder.antt =====
-- tinyrpc/net/coder: the packet formats.
pub mod Word
pub mod TinyPb
pub mod StringCoder
