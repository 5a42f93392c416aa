-- ===== src/RecordFile/Bytes/Codec.antt =====
-- lab03/zad1/prog.c: the bytes of an `int`.
use operating_systems_agh_la.Base.{ℕ, ◌-◌, ◌^◌, ◌<◌, ◌≡◌, refl, arith, length}
use operating_systems_agh_la.Base.Int.{ℤ, pos, negsuc}
use operating_systems_agh_la.RecordFile.Bytes.{low_bytes, unsigned, encode, decode}

pub length-encode : (z : ℤ) → length (encode z) ≡ 4
unfolding encode
length-encode (pos n) = refl
length-encode (negsuc n) = refl

-- The values of an `int`.
abbrev pub IsInt : ℤ → Type 0
IsInt (pos n) = n < 2 ^ 31
IsInt (negsuc n) = n < 2 ^ 31

unsigned-low_bytes : (u : ℕ) → u < 2 ^ 32 → unsigned (low_bytes 4 u) ≡ u
unsigned-low_bytes u lt = omega arith

pub decode-encode : (z : ℤ) → IsInt z → decode (encode z) ≡ z
unfolding decode encode
decode-encode (pos n) lt = rw (unsigned-low_bytes n (omega arith)) (ground arith)
decode-encode (negsuc n) lt = rw (unsigned-low_bytes (2 ^ 32 - n - 1) (omega arith)) (ground arith)
