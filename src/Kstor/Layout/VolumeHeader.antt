-- ===== src/Kstor/Layout/VolumeHeader.antt =====
-- kstor/api.h: `VolumeHeader`, the page at the start of a volume, and kstor/volume.cpp, where it is
-- written and read.
use cpp_lkm.Prelude.{
  ℕ, ◌+◌, ◌<◌, ◌≡◌, refl, ap, ◌∙◌, true, not, List, ◌++◌, append_assoc, length, length-append, ◌==◌,
  arith, Result, ok, bad_magic, data_corrupt, reject, ◌>>◌, u64_mod,
}
use cpp_lkm.Core.Bytes.{
  cpu_to_le32, cpu_to_le64, le32_to_cpu, le64_to_cpu, length-le32, length-le64, le32_round,
  le64_round,
}
use cpp_lkm.Core.Memory.{array_equal, array_equal_iff}
use cpp_lkm.Kstor.Guid.{Guid}
use cpp_lkm.Kstor.Layout.Fields.{field, zeros, length-zeros, field_skip, field_here, field_all}

-- `VolumeMagic`
abbrev pub volume_magic : ℕ
volume_magic = 0xCBDACBDA

-- The fields behind `Magic`. `BitmapSize` is left 0 and is not read.
pub record VolumeHeader : Type 0 where
  pub volume_id : Guid
  pub size : ℕ
  pub journal_size : ℕ

-- the bytes before `Hash`
unfoldable pub volume_image : VolumeHeader → List ℕ
volume_image h =
    cpu_to_le32 volume_magic
    ++ (zeros 12
        ++ (h.volume_id ++ (cpu_to_le64 h.size ++ (cpu_to_le64 h.journal_size ++ zeros 4040))))

-- The sizes of the fields.
pub record VolumeHeaderFits (h : VolumeHeader) : Type 0 where
  pub id_fits : length h.volume_id ≡ 16
  pub size_fits : h.size < u64_mod
  pub journal_fits : h.journal_size < u64_mod

module _ (sum : List ℕ → List ℕ) where
  -- The page that `Format` and `Unload` write.
  unfoldable pub volume_page : VolumeHeader → List ℕ
  volume_page h = volume_image h ++ sum (volume_image h)

  -- What `Load` makes of the page, up to the hash.
  unfoldable pub read_volume_header : List ℕ → Result VolumeHeader
  read_volume_header page = do
    reject (not (le32_to_cpu (field 0 4 page) == volume_magic)) bad_magic
    reject (not (array_equal (field 4088 8 page) (sum (field 0 4088 page)))) data_corrupt
    ok (record {
      volume_id = field 16 16 page;
      size = le64_to_cpu (field 32 8 page);
      journal_size = le64_to_cpu (field 40 8 page);
    })

length-volume_image : (h : VolumeHeader) → length h.volume_id ≡ 16 → length (volume_image h) ≡ 4088
unfolding volume_image
length-volume_image h k = simp (length-append, length-le32, length-le64, length-zeros, k) refl

-- the fields that a page of `h` holds
parts :
    (h : VolumeHeader) (t : List ℕ)
    → VolumeHeaderFits h
    → (le32_to_cpu (field 0 4 (volume_image h ++ t)) ≡ volume_magic)
      × (field 16 16 (volume_image h ++ t) ≡ h.volume_id)
      × (le64_to_cpu (field 32 8 (volume_image h ++ t)) ≡ h.size)
      × (le64_to_cpu (field 40 8 (volume_image h ++ t)) ≡ h.journal_size)
unfolding volume_image
parts h t fits =
    let m = cpu_to_le32 volume_magic in
    let a = cpu_to_le64 h.size in
    let b = cpu_to_le64 h.journal_size in
    let rest = zeros 4040 ++ t in
    let whole : volume_image h ++ t ≡ m ++ (zeros 12 ++ (h.volume_id ++ (a ++ (b ++ rest)))) =
      simp append_assoc in
    let past : (o w : ℕ)
        → field (4 + (12 + o)) w (m ++ (zeros 12 ++ (h.volume_id ++ (a ++ (b ++ rest)))))
          ≡ field o w (h.volume_id ++ (a ++ (b ++ rest))) =
      λ o w.
        field_skip 4 (12 + o) w m _ (length-le32 volume_magic)
        ∙ field_skip 12 o w (zeros 12) _ (length-zeros 12) in
    rw whole (
      ap le32_to_cpu (field_here 4 m _ (length-le32 volume_magic))
          ∙ le32_round volume_magic (omega arith),
      past 0 16 ∙ field_here 16 h.volume_id _ fits.id_fits,
      ap le64_to_cpu (
            past 16 8
            ∙ field_skip 16 0 8 h.volume_id _ fits.id_fits
            ∙ field_here 8 a _ (length-le64 h.size))
          ∙ le64_round h.size fits.size_fits,
      ap le64_to_cpu (
            past 24 8
            ∙ field_skip 16 8 8 h.volume_id _ fits.id_fits
            ∙ field_skip 8 0 8 a _ (length-le64 h.size)
            ∙ field_here 8 b _ (length-le64 h.journal_size))
          ∙ le64_round h.journal_size fits.journal_fits,
    )

module _ (sum : List ℕ → List ℕ) (sum_size : (bytes : List ℕ) → length (sum bytes) ≡ 8) where
  -- The page of a volume's header is one page long.
  pub length-volume_page :
      (h : VolumeHeader) → length h.volume_id ≡ 16 → length (volume_page sum h) ≡ 4096
  unfolding volume_page
  length-volume_page h k = omega (
    arith,
    length-append (volume_image h) (sum (volume_image h)),
    sum_size (volume_image h),
    length-volume_image h k,
  )

  -- The header that is read from a page is the one that was written there, if its identifier has 16
  -- bytes, its sizes are below 2^64 and the sum has 8 bytes.
  pub read-volume_page :
      (h : VolumeHeader) → VolumeHeaderFits h → read_volume_header sum (volume_page sum h) ≡ ok h
  unfolding read_volume_header volume_page
  read-volume_page h fits =
      let t = sum (volume_image h) in
      let (magic, id, size, journal_size) = parts h t fits in
      let long = length-volume_image h fits.id_fits in
      let front : field 0 4088 (volume_image h ++ t) ≡ volume_image h =
        field_here 4088 (volume_image h) t long in
      let back : field 4088 8 (volume_image h ++ t) ≡ t =
        field_skip 4088 0 8 (volume_image h) t long ∙ field_all 8 t (sum_size (volume_image h)) in
      let hashed : array_equal t t ≡ true = (array_equal_iff t t).1 refl in
      rw (magic, front, back, hashed, id, size, journal_size)
