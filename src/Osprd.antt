-- ===== src/Osprd.antt =====
-- Lab2/osprd.c: the requests of the ramdisk driver. A block of memory is a function from offsets to
-- bytes; an int is kept as its 32-bit pattern.
pub mod Requests
pub mod Lock
mod Tests
use cs111_ucla.Prelude.{
  ℕ, ◌+◌, ◌-◌, ◌%◌, ◌^◌, Bool, not, ◌&&◌, ltb, leb, if◌then◌else◌, add32, mul32, u32_mod, List, ◌∷◌,
}

abbrev pub sector_size : ℕ
sector_size = 512

-- What osprd_process_request uses of a struct request; `ended` lists the values given to
-- end_request, the last one first.
pub record Request : Type 0 where
  pub fs_request : Bool
  pub is_write : Bool
  pub sector : ℕ
  pub current_nr_sectors : ℕ
  pub buffer : ℕ → ℕ
  pub ended : List ℕ

-- memcpy(to + at, from + start, n), as the memory `to` is afterwards.
abbrev pub copy_bytes : ℕ → ℕ → ℕ → (ℕ → ℕ) → (ℕ → ℕ) → ℕ → ℕ
copy_bytes n at start from to x =
    if leb at x && ltb x (at + n) then from (start + (x - at)) else to x

abbrev pub end_request : ℕ → Request → Request
end_request uptodate req = record req { ended = uptodate ∷ req.ended }

-- `a > b` for two ints.
abbrev pub signed_greater : ℕ → ℕ → Bool
signed_greater a b = ltb ((b + 2 ^ 31) % u32_mod) ((a + 2 ^ 31) % u32_mod)

abbrev pub offset : Request → ℕ
offset req = mul32 req.sector sector_size

abbrev pub num_bytes : Request → ℕ
num_bytes req = mul32 req.current_nr_sectors sector_size

-- The copying, after the check of the bounds.
unfoldable pub transfer : (ℕ → ℕ) → Request → (ℕ → ℕ) × Request
transfer disk req =
    if req.is_write
    then (copy_bytes (num_bytes req) (offset req) 0 req.buffer disk, req)
    else (disk, record req { buffer = copy_bytes (num_bytes req) 0 (offset req) disk req.buffer })

-- osprd_process_request, for a disk of `nsectors` sectors with the bytes `disk`.
unfoldable pub process_request : ℕ → (ℕ → ℕ) → Request → (ℕ → ℕ) × Request
unfolding transfer
process_request nsectors disk req =
    let over = signed_greater (add32 (offset req) (num_bytes req)) (mul32 nsectors sector_size) in
    let checked = if over then end_request 0 req else req in
    let done = transfer disk checked in
    if not req.fs_request then (disk, end_request 0 req) else (done.0, end_request 1 done.1)
