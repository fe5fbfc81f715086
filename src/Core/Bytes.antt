-- ===== src/Core/Bytes.antt =====
-- core/bitops.cpp's byte order: the bytes of a field that holds `CpuToLe32(v)` or `CpuToLe64(v)`, the
-- least significant first, and `Le32ToCpu` or `Le64ToCpu` of a field.
use native.Mathlib.Nat.{pow-suc}
use cpp_lkm.Prelude.{
  ℕ, zero, suc, ◌+◌, ◌*◌, ◌/◌, ◌%◌, ◌^◌, ◌<◌, ◌≡◌, refl, ap, List, [], ◌∷◌, length, arith, u32_mod,
  u64_mod,
}

unfoldable pub encode : ℕ → ℕ → List ℕ
encode zero value = []
encode (suc width) value = (value % 256) ∷ encode width (value / 256)

unfoldable pub decode : List ℕ → ℕ
decode [] = 0
decode (b ∷ bytes) = b + 256 * decode bytes

unfoldable pub cpu_to_le32 : ℕ → List ℕ
cpu_to_le32 value = encode 4 value

unfoldable pub cpu_to_le64 : ℕ → List ℕ
cpu_to_le64 value = encode 8 value

unfoldable pub le32_to_cpu : List ℕ → ℕ
le32_to_cpu bytes = decode bytes

unfoldable pub le64_to_cpu : List ℕ → ℕ
le64_to_cpu bytes = decode bytes

pub length-encode : (w v : ℕ) → length (encode w v) ≡ w
unfolding encode
length-encode zero v = refl
length-encode (suc w) v = ap suc (length-encode w (v / 256))

pub decode-encode : (w v : ℕ) → v < 256 ^ w → decode (encode w v) ≡ v
unfolding encode decode
decode-encode zero v h = ground arith
decode-encode (suc w) v h =
    let ih = decode-encode w (v / 256) (omega (arith, pow-suc 256 w)) in omega arith

-- the orders of the fields of a packed structure
pub length-le32 : (v : ℕ) → length (cpu_to_le32 v) ≡ 4
unfolding cpu_to_le32
length-le32 v = length-encode 4 v

pub length-le64 : (v : ℕ) → length (cpu_to_le64 v) ≡ 8
unfolding cpu_to_le64
length-le64 v = length-encode 8 v

pub le32_round : (v : ℕ) → v < u32_mod → le32_to_cpu (cpu_to_le32 v) ≡ v
unfolding cpu_to_le32 le32_to_cpu
le32_round v h = decode-encode 4 v h

pub le64_round : (v : ℕ) → v < u64_mod → le64_to_cpu (cpu_to_le64 v) ≡ v
unfolding cpu_to_le64 le64_to_cpu
le64_round v h = decode-encode 8 v h
