-- ===== src/Core/Bio/Laws.antt =====
-- core/bio.h: what the submission of a list of writes does to the device, with and without failing writes.
use cpp_lkm.Prelude.{
  ℕ, ◌≡◌, refl, ap, ◌∙◌, sym, Bool, true, false, List, [], ◌∷◌, ◌++◌, if◌then◌else◌, Error, success,
  is_ok, ok, arith, length, take, length-take, ◌≤◌, ◌<◌, ◌%◌, ltb, ◌==◌,
}
use cpp_lkm.Core.Disk.{Disk, write_bytes, read_bytes}
use cpp_lkm.Core.Bio.{
  Io, Device, submit, submit_last, submit_wait_result, page_size, add_io, overwrite,
}

-- A device on which no request fails: a write puts its bytes at its position, a read returns them.
pub record IsHealthy (dev : Device) : Type 0 where
  pub writes : (d : Disk) (io : Io) → dev.write d io ≡ (success, write_bytes d io.position io.bytes)
  pub reads : (d : Disk) (p n : ℕ) → dev.read d p n ≡ ok (read_bytes d p n)

unfoldable pub write_all : List Io → Disk → Disk
write_all [] d = d
write_all (io ∷ list) d = write_all list (write_bytes d io.position io.bytes)

pub write_all-append :
    (xs ys : List Io) (d : Disk) → write_all (xs ++ ys) d ≡ write_all ys (write_all xs d)
unfolding write_all
write_all-append [] ys d = refl
write_all-append (x ∷ xs) ys d = write_all-append xs ys (write_bytes d x.position x.bytes)

module _ {dev : Device} (healthy : IsHealthy dev) where
  submit-healthy :
      (list : List Io) (d : Disk) → submit dev list success d ≡ (success, write_all list d)
  unfolding submit write_all
  submit-healthy [] d = refl
  submit-healthy (io ∷ list) d =
      rw (healthy.writes d io) (submit-healthy list (write_bytes d io.position io.bytes))

  submit_last-healthy :
      (list : List Io) (d : Disk) → submit_last dev list success d ≡ (success, write_all list d)
  unfolding submit_last write_all
  submit_last-healthy [] d = refl
  submit_last-healthy (io ∷ []) d = rw (healthy.writes d io)
  submit_last-healthy (io ∷ next ∷ list) d =
      rw (healthy.writes d io)
        (submit_last-healthy (next ∷ list) (write_bytes d io.position io.bytes))

  -- On a device without failures a submission succeeds and carries out every write, in order, with
  -- or without the barrier before the last.
  pub submit_wait_result-healthy :
      (preflush_fua : Bool) (list : List Io) (d : Disk)
      → submit_wait_result dev preflush_fua list d ≡ (success, write_all list d)
  unfolding submit_wait_result
  submit_wait_result-healthy true list d = submit_last-healthy list d
  submit_wait_result-healthy false list d = submit-healthy list d

submit_last-append :
    (dev : Device) (list : List Io) (last : Io) (r : Error) (d : Disk)
    → submit_last dev (list ++ (last ∷ [])) r d
      ≡ submit_last dev (last ∷ []) (submit dev list r d).0 (submit dev list r d).1
unfolding submit submit_last
submit_last-append dev [] last r d = refl
submit_last-append dev (io ∷ []) last r d = refl
submit_last-append dev (io ∷ next ∷ list) last r d =
    submit_last-append dev (next ∷ list) last (if is_ok r then (dev.write d io).0 else r)
      (dev.write d io).1

-- With the barrier, the last write is carried out only if none before it failed: otherwise the
-- first error is the result, and the device holds what the others left.
pub submit_barrier :
    (dev : Device) (list : List Io) (last : Io) (d : Disk)
    → submit_wait_result dev true (list ++ (last ∷ [])) d ≡ (
        let (e, d') = submit_wait_result dev false list d in
        if is_ok e then dev.write d' last else (e, d'))
unfolding submit_wait_result submit_last
submit_barrier dev list last d = submit_last-append dev list last success d

take-overwrite :
    (old new : List ℕ) → length new ≤ length old → take (length new) (overwrite old new) ≡ new
unfolding overwrite
take-overwrite old [] h = refl
take-overwrite [] (b ∷ new) h = absurd (omega arith)
take-overwrite (a ∷ old) (b ∷ new) h = ap (λ t. b ∷ t) (take-overwrite old new (omega arith))

-- With memory, data of 1 to 4096 bytes for a sector become one request that writes exactly the
-- data, behind the requests that were there.
pub add_io_lem :
    (fresh bytes : List ℕ) (size position : ℕ) (list : List Io)
    → length fresh ≡ page_size
    → 0 < size
    → size ≤ page_size
    → size ≤ length bytes
    → position % 512 ≡ 0
    → add_io true fresh bytes size position list
      ≡ ok (list ++ (record { position = position; bytes = take size bytes } ∷ []))
unfolding add_io
add_io_lem fresh bytes size position list page some_bytes small inside sector =
    let exact : length (take size bytes) ≡ size = omega (arith, length-take size bytes) in
    let fits : ltb page_size size ≡ false = ground arith in
    let not_all : (size == 0) ≡ false = ground arith in
    let kept : take size (overwrite fresh (take size bytes)) ≡ take size bytes =
      ap (λ k. take k (overwrite fresh (take size bytes))) (sym exact)
      ∙ take-overwrite fresh (take size bytes) (omega arith) in
    rw (fits, sector, not_all, kept)
