-- ===== src/Kstor/Layout/Header.antt =====
-- kstor/api.h: `JournalHeader`, the page at the start of a journal, and kstor/journal.cpp, where it
-- is written and read.
use cpp_lkm.Prelude.{
  ℕ, ◌+◌, ◌<◌, ◌≡◌, refl, ap, ◌∙◌, true, not, List, ◌++◌, append_assoc, length, length-append, ◌==◌,
  arith, Result, ok, bad_magic, data_corrupt, reject, ◌>>◌, u64_mod,
}
use cpp_lkm.Core.Bytes.{
  cpu_to_le32, cpu_to_le64, le32_to_cpu, le64_to_cpu, length-le32, length-le64, le32_round,
  le64_round,
}
use cpp_lkm.Core.Memory.{array_equal, array_equal_iff}
use cpp_lkm.Kstor.Layout.Fields.{field, zeros, length-zeros, field_skip, field_here, field_all}

-- `JournalMagic`
abbrev pub journal_magic : ℕ
journal_magic = 0xBCDEBCDE

-- The fields behind `Magic`.
pub record JournalHeader : Type 0 where
  pub size : ℕ
  pub log_start_index : ℕ
  pub log_end_index : ℕ
  pub log_size : ℕ
  pub log_capacity : ℕ

-- the bytes before `Hash`
unfoldable pub header_image : JournalHeader → List ℕ
header_image h =
    cpu_to_le32 journal_magic
    ++ (zeros 12
        ++ (cpu_to_le64 h.size
            ++ (cpu_to_le64 h.log_start_index
                ++ (cpu_to_le64 h.log_end_index
                    ++ (cpu_to_le64 h.log_size ++ (cpu_to_le64 h.log_capacity ++ zeros 4032))))))

-- The sizes of the fields.
pub record HeaderFits (h : JournalHeader) : Type 0 where
  pub size_fits : h.size < u64_mod
  pub start_fits : h.log_start_index < u64_mod
  pub end_fits : h.log_end_index < u64_mod
  pub log_size_fits : h.log_size < u64_mod
  pub capacity_fits : h.log_capacity < u64_mod

module _ (sum : List ℕ → List ℕ) where
  -- The page that `Format` and `Flush` write.
  unfoldable pub header_page : JournalHeader → List ℕ
  header_page h = header_image h ++ sum (header_image h)

  -- What `Load` makes of the page, up to the hash.
  unfoldable pub read_header : List ℕ → Result JournalHeader
  read_header page = do
    reject (not (le32_to_cpu (field 0 4 page) == journal_magic)) bad_magic
    reject (not (array_equal (sum (field 0 4088 page)) (field 4088 8 page))) data_corrupt
    ok (record {
      size = le64_to_cpu (field 16 8 page);
      log_start_index = le64_to_cpu (field 24 8 page);
      log_end_index = le64_to_cpu (field 32 8 page);
      log_size = le64_to_cpu (field 40 8 page);
      log_capacity = le64_to_cpu (field 48 8 page);
    })

length-header_image : (h : JournalHeader) → length (header_image h) ≡ 4088
unfolding header_image
length-header_image h = simp (length-append, length-le32, length-le64, length-zeros) refl

-- a page that begins with seven fields
abbrev joined : (m z a b c d e rest : List ℕ) → List ℕ
joined m z a b c d e rest = m ++ (z ++ (a ++ (b ++ (c ++ (d ++ (e ++ rest))))))

-- the fields of a page that begins with seven fields
module _ (m z a b c d e rest : List ℕ) (h_m : length m ≡ 4) (h_z : length z ≡ 12)
    (h_a : length a ≡ 8) (h_b : length b ≡ 8) (h_c : length c ≡ 8) (h_d : length d ≡ 8)
    (h_e : length e ≡ 8) where
  abbrev page : List ℕ
  page = joined m z a b c d e rest

  past_magic : (o : ℕ) → field (16 + o) 8 page ≡ field o 8 (a ++ (b ++ (c ++ (d ++ (e ++ rest)))))
  past_magic o =
      let split : 16 + o ≡ 4 + (12 + o) = omega arith in
      rw split (field_skip 4 (12 + o) 8 m _ h_m ∙ field_skip 12 o 8 z _ h_z)

  field_a : field 16 8 page ≡ a
  field_a = past_magic 0 ∙ field_here 8 a _ h_a

  field_b : field 24 8 page ≡ b
  field_b = past_magic 8 ∙ field_skip 8 0 8 a _ h_a ∙ field_here 8 b _ h_b

  field_c : field 32 8 page ≡ c
  field_c =
      past_magic 16 ∙ field_skip 8 8 8 a _ h_a ∙ field_skip 8 0 8 b _ h_b ∙ field_here 8 c _ h_c

  field_d : field 40 8 page ≡ d
  field_d =
      past_magic 24
      ∙ field_skip 8 16 8 a _ h_a
      ∙ field_skip 8 8 8 b _ h_b
      ∙ field_skip 8 0 8 c _ h_c
      ∙ field_here 8 d _ h_d

  field_e : field 48 8 page ≡ e
  field_e =
      past_magic 32
      ∙ field_skip 8 24 8 a _ h_a
      ∙ field_skip 8 16 8 b _ h_b
      ∙ field_skip 8 8 8 c _ h_c
      ∙ field_skip 8 0 8 d _ h_d
      ∙ field_here 8 e _ h_e

whole_page :
    (h : JournalHeader) (t : List ℕ)
    → header_image h ++ t
      ≡ joined
          (cpu_to_le32 journal_magic)
          (zeros 12)
          (cpu_to_le64 h.size)
          (cpu_to_le64 h.log_start_index)
          (cpu_to_le64 h.log_end_index)
          (cpu_to_le64 h.log_size)
          (cpu_to_le64 h.log_capacity)
          (zeros 4032 ++ t)
unfolding header_image
whole_page h t = simp append_assoc

-- the fields that a page of `h` holds
parts :
    (h : JournalHeader) (t : List ℕ)
    → HeaderFits h
    → (le32_to_cpu (field 0 4 (header_image h ++ t)) ≡ journal_magic)
      × (le64_to_cpu (field 16 8 (header_image h ++ t)) ≡ h.size)
      × (le64_to_cpu (field 24 8 (header_image h ++ t)) ≡ h.log_start_index)
      × (le64_to_cpu (field 32 8 (header_image h ++ t)) ≡ h.log_end_index)
      × (le64_to_cpu (field 40 8 (header_image h ++ t)) ≡ h.log_size)
      × (le64_to_cpu (field 48 8 (header_image h ++ t)) ≡ h.log_capacity)
parts h t fits =
    let m = cpu_to_le32 journal_magic in
    let a = cpu_to_le64 h.size in
    let b = cpu_to_le64 h.log_start_index in
    let c = cpu_to_le64 h.log_end_index in
    let d = cpu_to_le64 h.log_size in
    let e = cpu_to_le64 h.log_capacity in
    let rest = zeros 4032 ++ t in
    let hm = length-le32 journal_magic in
    let hz = length-zeros 12 in
    let ha = length-le64 h.size in
    let hb = length-le64 h.log_start_index in
    let hc = length-le64 h.log_end_index in
    let hd = length-le64 h.log_size in
    let he = length-le64 h.log_capacity in
    rw (whole_page h t) (
      ap le32_to_cpu (field_here 4 m _ hm) ∙ le32_round journal_magic (omega arith),
      ap le64_to_cpu (field_a m (zeros 12) a b c d e rest hm hz ha hb hc hd he)
          ∙ le64_round h.size fits.size_fits,
      ap le64_to_cpu (field_b m (zeros 12) a b c d e rest hm hz ha hb hc hd he)
          ∙ le64_round h.log_start_index fits.start_fits,
      ap le64_to_cpu (field_c m (zeros 12) a b c d e rest hm hz ha hb hc hd he)
          ∙ le64_round h.log_end_index fits.end_fits,
      ap le64_to_cpu (field_d m (zeros 12) a b c d e rest hm hz ha hb hc hd he)
          ∙ le64_round h.log_size fits.log_size_fits,
      ap le64_to_cpu (field_e m (zeros 12) a b c d e rest hm hz ha hb hc hd he)
          ∙ le64_round h.log_capacity fits.capacity_fits,
    )

module _ (sum : List ℕ → List ℕ) (sum_size : (bytes : List ℕ) → length (sum bytes) ≡ 8) where
  -- The page of a journal's header is one page long.
  pub length-header_page : (h : JournalHeader) → length (header_page sum h) ≡ 4096
  unfolding header_page
  length-header_page h = omega (
    arith,
    length-append (header_image h) (sum (header_image h)),
    sum_size (header_image h),
    length-header_image h,
  )

  -- The header that is read from a page is the one that was written there, if its fields are below
  -- 2^64 and the sum has 8 bytes.
  pub read-header_page :
      (h : JournalHeader) → HeaderFits h → read_header sum (header_page sum h) ≡ ok h
  unfolding read_header header_page
  read-header_page h fits =
      let t = sum (header_image h) in
      let (magic, size, start, stop, log_size, capacity) = parts h t fits in
      let front : field 0 4088 (header_image h ++ t) ≡ header_image h =
        field_here 4088 (header_image h) t (length-header_image h) in
      let back : field 4088 8 (header_image h ++ t) ≡ t =
        field_skip 4088 0 8 (header_image h) t (length-header_image h)
        ∙ field_all 8 t (sum_size (header_image h)) in
      let hashed : array_equal t t ≡ true = (array_equal_iff t t).1 refl in
      rw (magic, front, back, hashed, size, start, stop, log_size, capacity)
