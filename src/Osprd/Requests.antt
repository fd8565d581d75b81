-- ===== src/Osprd/Requests.antt =====
-- osprd_process_request of Lab2/osprd.c: reading and writing sectors.
use mathlib.Core.Bool.{true≢false}
use cs111_ucla.Prelude.{
  sym, ◌∙◌, inl, inr, Bool-cases, add32, mul32, ℕ, ◌+◌, ◌*◌, ◌^◌, ◌≤◌, ◌<◌, ◌≡◌, ◌⊎◌, refl, arith,
  Bool, true, false, if◌then◌else◌, ◌∷◌,
}
use cs111_ucla.Osprd.{
  Request, sector_size, copy_bytes, end_request, offset, num_bytes, signed_greater, transfer,
  process_request,
}

if-true {ℓ} : {A : Type ℓ} {b : Bool} (x y : A) → b ≡ true → (if b then x else y) ≡ x
if-true {b = true} x y h = refl
if-true {b = false} x y h = cc

if-false {ℓ} : {A : Type ℓ} {b : Bool} (x y : A) → b ≡ false → (if b then x else y) ≡ y
if-false {b = false} x y h = refl
if-false {b = true} x y h = cc

-- A request of the file system for sectors of a disk of fewer than 2 GB.
pub record InBounds (nsectors : ℕ) (req : Request) : Type 0 where
  pub fs : req.fs_request ≡ true
  pub sectors : req.sector + req.current_nr_sectors ≤ nsectors
  pub small : nsectors < 2 ^ 22

-- What a request for sectors of the disk does: one end_request(1), and the bytes of the sectors go
-- from the buffer to the disk or from the disk to the buffer; no other byte changes.
pub record Done (disk : ℕ → ℕ) (req : Request) (disk' : ℕ → ℕ) (req' : Request) : Type 0 where
  pub ended : req'.ended ≡ 1 ∷ req.ended
  pub written :
      (x : ℕ)
      → x < req.current_nr_sectors * 512
      → req.is_write ≡ true
      → disk' (req.sector * 512 + x) ≡ req.buffer x
  pub read :
      (x : ℕ)
      → x < req.current_nr_sectors * 512
      → req.is_write ≡ false
      → req'.buffer x ≡ disk (req.sector * 512 + x)
  pub disk_kept :
      (x : ℕ)
      → (x < req.sector * 512)
        ⊎ ((req.sector + req.current_nr_sectors) * 512 ≤ x)
        ⊎ (req.is_write ≡ false)
      → disk' x ≡ disk x
  pub buffer_kept :
      (x : ℕ)
      → (req.current_nr_sectors * 512 ≤ x) ⊎ (req.is_write ≡ true)
      → req'.buffer x ≡ req.buffer x

transfer-write :
    (disk : ℕ → ℕ) (req : Request)
    → req.is_write ≡ true
    → transfer disk req ≡ (copy_bytes (num_bytes req) (offset req) 0 req.buffer disk, req)
unfolding transfer
transfer-write disk req w = if-true _ _ w

transfer-read :
    (disk : ℕ → ℕ) (req : Request)
    → req.is_write ≡ false
    → transfer disk req
      ≡ (disk, record req { buffer = copy_bytes (num_bytes req) 0 (offset req) disk req.buffer })
unfolding transfer
transfer-read disk req w = if-false _ _ w

module _ {nsectors : ℕ} {req : Request} (b : InBounds nsectors req) (disk : ℕ → ℕ) where
  at_offset : offset req ≡ req.sector * 512
  at_offset = omega (arith, b)

  of_length : num_bytes req ≡ req.current_nr_sectors * 512
  of_length = omega (arith, b)

  processed :
      process_request nsectors disk req
      ≡ ((transfer disk req).0, end_request 1 (transfer disk req).1)
  unfolding process_request
  processed =
      let within : signed_greater (add32 (offset req) (num_bytes req)) (mul32 nsectors sector_size)
          ≡ false =
        ground (arith, b) in
      rw (process_request, within, b.fs) refl

  wrote :
      req.is_write ≡ true
      → Done disk req (transfer disk req).0 (end_request 1 (transfer disk req).1)
  wrote w = rw (transfer-write disk req w) (record {
    ended = refl;
    written = λ x h e. ground (arith, at_offset, of_length);
    read = λ x h e. absurd (true≢false (sym w ∙ e));
    disk_kept = λ x h. ground (arith, at_offset, of_length);
    buffer_kept = λ x h. refl;
  })

  fetched :
      req.is_write ≡ false
      → Done disk req (transfer disk req).0 (end_request 1 (transfer disk req).1)
  fetched w = rw (transfer-read disk req w) (record {
    ended = refl;
    written = λ x h e. absurd (true≢false (sym e ∙ w));
    read = λ x h e. ground (arith, at_offset, of_length);
    disk_kept = λ x h. refl;
    buffer_kept = λ x h. ground (arith, of_length);
  })

-- A request of the file system for sectors of the disk moves the bytes of these sectors, from the
-- buffer to the disk or from the disk to the buffer, changes no other byte of either, and is ended
-- once, as a success.
pub process_request-Done :
    {nsectors : ℕ} {req : Request} (b : InBounds nsectors req) (disk : ℕ → ℕ)
    → Done disk req (process_request nsectors disk req).0 (process_request nsectors disk req).1
process_request-Done {nsectors} {req} b disk =
    rw (processed b disk)
      (elim (Bool-cases req.is_write) [ inl w ↦ wrote b disk w | inr w ↦ fetched b disk w ])
