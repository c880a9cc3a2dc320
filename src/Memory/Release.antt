-- ===== src/Memory/Release.antt =====
-- `mm_free`: what it changes.
