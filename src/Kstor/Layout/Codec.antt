-- ===== src/Kstor/Layout/Codec.antt =====
-- kstor/journal.cpp: `WriteTxBlockPrepare` and `ReadTxBlockComplete` together.
use cpp_lkm.Prelude.{
  ℕ, ◌+◌, ◌<◌, ◌≡◌, refl, ap, ◌∙◌, true, List, ◌++◌, append_assoc, length, length-append, ◌==◌,
  ==_iff, arith, ok, u32_mod,
}
use cpp_lkm.Core.Bytes.{
  cpu_to_le32, cpu_to_le64, le32_to_cpu, length-le32, length-le64, le32_round, le64_round,
}
use cpp_lkm.Core.Memory.{array_equal, array_equal_iff}
use cpp_lkm.Kstor.Layout.Fields.{field, zeros, length-zeros, field_skip, field_here, field_all}
use cpp_lkm.Kstor.Layout.TxBlock.{
  Body, tx_begin, tx_data, tx_commit, TxBlock, block_type, rest_image, image, BodyFits, Fits,
  read_body, write_tx_block_prepare, read_tx_block_complete,
}

length-rest_image : (body : Body) → BodyFits body → length (rest_image body) ≡ 4068
unfolding rest_image
length-rest_image tx_begin h = length-zeros 4068
length-rest_image (tx_data index data_size position bytes) h =
    simp (length-append, length-le32, length-le64) (omega arith)
length-rest_image (tx_commit state block_count time) h =
    simp (length-append, length-le32, length-le64, length-zeros) refl

length-image : (b : TxBlock) → Fits b → length (image b) ≡ 4088
unfolding image
length-image b fits =
    simp (length-append, length-le32, length-rest_image b.body fits.body_fits, fits.id_size) refl

-- A page whose first parts have the widths of `TxId`, `Type` and three fields behind them.
module _ (id t a c p rest : List ℕ) (h_id : length id ≡ 16) (h_t : length t ≡ 4)
    (h_a : length a ≡ 4) (h_c : length c ≡ 4) (h_p : length p ≡ 8) where
  abbrev page : List ℕ
  page = id ++ (t ++ (a ++ (c ++ (p ++ rest))))

  past_type : (o w : ℕ) → field (20 + o) w page ≡ field o w (a ++ (c ++ (p ++ rest)))
  past_type o w =
      let e : 20 + o ≡ 16 + (4 + o) = omega arith in
      rw e (field_skip 16 (4 + o) w id _ h_id ∙ field_skip 4 o w t _ h_t)

  first_field : field 20 4 page ≡ a
  first_field = past_type 0 4 ∙ field_here 4 a _ h_a

  second_field : field 24 4 page ≡ c
  second_field = past_type 4 4 ∙ field_skip 4 0 4 a _ h_a ∙ field_here 4 c _ h_c

  third_field : field 28 8 page ≡ p
  third_field =
      past_type 8 8 ∙ field_skip 4 4 8 a _ h_a ∙ field_skip 4 0 8 c _ h_c ∙ field_here 8 p _ h_p

  last_field :
      (bytes tail : List ℕ)
      → rest ≡ bytes ++ tail
      → length bytes ≡ 4052
      → field 36 4052 page ≡ bytes
  last_field bytes tail e h =
      past_type 16 4052
      ∙ field_skip 4 12 4052 a _ h_a
      ∙ field_skip 4 8 4052 c _ h_c
      ∙ field_skip 8 0 4052 p _ h_p
      ∙ ap (field 0 4052) e
      ∙ field_here 4052 bytes tail h

-- the fields behind `Type`, in the part of a page behind `TxId` and `Type`
read_body-image :
    (id : List ℕ) (body : Body) (tail : List ℕ)
    → length id ≡ 16
    → BodyFits body
    → read_body
        (block_type body)
        (id ++ (cpu_to_le32 (block_type body) ++ (rest_image body ++ tail)))
      ≡ ok body
unfolding read_body rest_image
read_body-image id tx_begin tail h fits = refl
read_body-image id (tx_data index data_size position bytes) tail h fits =
    let a = cpu_to_le32 index in
    let c = cpu_to_le32 data_size in
    let p = cpu_to_le64 position in
    let assoc : (a ++ (c ++ (p ++ bytes))) ++ tail ≡ a ++ (c ++ (p ++ (bytes ++ tail))) =
      simp append_assoc in
    let t = cpu_to_le32 2 in
    let ta = length-le32 index in
    let tc = length-le32 data_size in
    let tp = length-le64 position in
    let rest = bytes ++ tail in
    rw (
      assoc,
      first_field id t a c p rest h (length-le32 2) ta tc tp,
      second_field id t a c p rest h (length-le32 2) ta tc tp,
      third_field id t a c p rest h (length-le32 2) ta tc tp,
      last_field id t a c p rest h (length-le32 2) ta tc tp bytes tail refl fits.3,
      le32_round index fits.0,
      le32_round data_size fits.1,
      le64_round position fits.2,
    )
read_body-image id (tx_commit state block_count time) tail h fits =
    let a = cpu_to_le32 state in
    let c = cpu_to_le32 block_count in
    let p = cpu_to_le64 time in
    let assoc : (a ++ (c ++ (p ++ zeros 4052))) ++ tail ≡ a ++ (c ++ (p ++ (zeros 4052 ++ tail))) =
      simp append_assoc in
    let t = cpu_to_le32 3 in
    let ta = length-le32 state in
    let tc = length-le32 block_count in
    let tp = length-le64 time in
    let rest = zeros 4052 ++ tail in
    rw (
      assoc,
      first_field id t a c p rest h (length-le32 3) ta tc tp,
      second_field id t a c p rest h (length-le32 3) ta tc tp,
      third_field id t a c p rest h (length-le32 3) ta tc tp,
      le32_round state fits.0,
      le32_round block_count fits.1,
      le64_round time fits.2,
    )

block_type-lt : (body : Body) → block_type body < u32_mod
block_type-lt tx_begin = omega arith
block_type-lt (tx_data index data_size position bytes) = omega arith
block_type-lt (tx_commit state block_count time) = omega arith

whole_page :
    (b : TxBlock) (h : List ℕ)
    → image b ++ h ≡ b.tx_id ++ (cpu_to_le32 (block_type b.body) ++ (rest_image b.body ++ h))
unfolding image
whole_page b h = simp append_assoc

-- the type, the body and the identifier that a page of `b` holds
parts :
    (b : TxBlock) (h : List ℕ)
    → Fits b
    → (le32_to_cpu (field 16 4 (image b ++ h)) ≡ block_type b.body)
      × (read_body (block_type b.body) (image b ++ h) ≡ ok b.body)
      × (field 0 16 (image b ++ h) ≡ b.tx_id)
parts b h fits =
    let t = cpu_to_le32 (block_type b.body) in
    let rest = rest_image b.body ++ h in
    rw (whole_page b h) (
      ap le32_to_cpu (
            field_skip 16 0 4 b.tx_id (t ++ rest) fits.id_size
            ∙ field_here 4 t rest (length-le32 (block_type b.body)))
          ∙ le32_round (block_type b.body) (block_type-lt b.body),
      read_body-image b.tx_id b.body h fits.id_size fits.body_fits,
      field_here 16 b.tx_id (t ++ rest) fits.id_size,
    )

module _ (sum : List ℕ → List ℕ) (sum_size : (bytes : List ℕ) → length (sum bytes) ≡ 8) where
  -- `ReadTxBlockComplete` returns the block whose page `WriteTxBlockPrepare` made, if the block's
  -- fields have the sizes of their types and the sum has 8 bytes.
  pub read-write_tx_block :
      (b : TxBlock) → Fits b → read_tx_block_complete sum (write_tx_block_prepare sum b) ≡ ok b
  unfolding read_tx_block_complete write_tx_block_prepare
  read-write_tx_block b fits =
      let h = sum (image b) in
      let long = length-image b fits in
      let sized : (length (image b ++ h) == 4096) ≡ true =
        (==_iff (length (image b ++ h)) 4096).1
          (omega (arith, length-append (image b) h, sum_size (image b))) in
      let front : field 0 4088 (image b ++ h) ≡ image b = field_here 4088 (image b) h long in
      let back : field 4088 8 (image b ++ h) ≡ h =
        field_skip 4088 0 8 (image b) h long ∙ field_all 8 h (sum_size (image b)) in
      let hashed : array_equal h h ≡ true = (array_equal_iff h h).1 refl in
      let (type, body, id) = parts b h fits in rw (sized, front, back, hashed, type, body, id)

  -- The page of a block that fits is one page long.
  pub length-write_tx_block : (b : TxBlock) → Fits b → length (write_tx_block_prepare sum b) ≡ 4096
  unfolding write_tx_block_prepare
  length-write_tx_block b fits =
      omega
        (arith, length-append (image b) (sum (image b)), sum_size (image b), length-image b fits)
