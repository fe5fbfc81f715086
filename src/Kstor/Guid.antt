-- ===== src/Kstor/Guid.antt =====
-- kstor/guid.cpp: identifiers of 16 bytes, their hash and their equality, as a key of the tables.
use cpp_lkm.Prelude.{
  ℕ, ◌+◌, ◌*◌, ◌%◌, ◌≡◌, ◌↔◌, true, ap, Bool, List, [], ◌∷◌, u64_mod, arith, replicate,
}
use cpp_lkm.Core.Memory.{array_equal, array_equal_iff}
use cpp_lkm.Core.HashTable.{HashKey}

-- `Content.Data`
abbrev pub Guid : Type 0
Guid = List ℕ

-- The constructor with no argument, and `Clear`.
unfoldable pub clear : Guid
clear = replicate 16 0

-- The loop of `Hash` over the bytes that are left: `((hash << 5) + hash) + c` in 64 bits.
unfoldable pub hash_from : ℕ → List ℕ → ℕ
hash_from hash [] = hash
hash_from hash (c ∷ bytes) = hash_from ((hash * 32 % u64_mod + hash + c) % u64_mod) bytes

unfoldable pub hash : Guid → ℕ
unfolding hash_from
hash id = hash_from 5381 id

-- `operator==`: `Compare` is 0 exactly when all bytes agree.
unfoldable pub equal : Guid → Guid → Bool
equal a b = array_equal a b

pub equal_iff : (a b : Guid) → (equal a b ≡ true) ↔ (a ≡ b)
unfolding equal
equal_iff a b = array_equal_iff a b

instance abbrev pub guid_key : HashKey Guid
guid_key = record { hash = hash; equal = equal; equal_iff = equal_iff }

-- The hash is 33 * hash + c at every byte, in 64 bits: the intermediate wrap of the shift is not seen.
pub hash_from-step :
    (h c : ℕ) (bytes : List ℕ) → hash_from h (c ∷ bytes) ≡ hash_from ((33 * h + c) % u64_mod) bytes
unfolding hash_from
hash_from-step h c bytes = ap (λ k. hash_from k bytes) (omega arith)
