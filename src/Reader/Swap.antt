-- ===== src/Reader/Swap.antt =====
-- The byte swaps of rmw_cyclonedds_cpp/src/Serialization.cpp.
use rmw_cyclonedds.Base.{ℕ, ◌<◌, ◌≡◌, ◌^◌, arith}
use mathlib.Core.List.{reverse}
use rmw_cyclonedds.Memory.{Endian, little, big, u16_bytes, u32_bytes}
use rmw_cyclonedds.Reader.{bswap16, bswap32}

pub bswap16-bytes :
    (e : Endian) (u : ℕ) → u < 2 ^ 16 → u16_bytes e (bswap16 u) ≡ reverse (u16_bytes e u)
unfolding u16_bytes bswap16
bswap16-bytes little u h = ground arith
bswap16-bytes big u h = ground arith

pub bswap32-bytes :
    (e : Endian) (u : ℕ) → u < 2 ^ 32 → u32_bytes e (bswap32 u) ≡ reverse (u32_bytes e u)
unfolding u32_bytes bswap32
bswap32-bytes little u h = ground arith
bswap32-bytes big u h = ground arith
