-- ===== src/CilkFor/Overflow.antt =====
-- Where the sum in `grainsize` wraps.
