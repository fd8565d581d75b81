-- ===== src/Ospfs/Directory/Removes.antt =====
-- All answers of ospfs_unlink of Lab3/ospfsmod.c, for files of at most ten blocks that are not symbolic
-- links.
use cs111_ucla.Prelude.{
  ℕ, ◌+◌, ◌*◌, ◌≤◌, ◌<◌, ◌≡◌, ◌≢◌, refl, sym, ◌∙◌, ap, ◌⊎◌, inl, inr, arith, true, false,
  Bool-cases, ◌==◌, sub32, Option, none,
}
use cs111_ucla.Ospfs.Disk.{
  Disk, load32, load32-bytes, load32-store32, load32-Outside, store32, store32-Outside,
}
use cs111_ucla.Ospfs.Bitmap.Alloc.{is_free}
use cs111_ucla.Ospfs.Index.{oi_nlink, oi_ftype, ftype_symlink}
use cs111_ucla.Ospfs.Monad.{Result, ok, err, enoent}
use cs111_ucla.Ospfs.Grow.Small.{blocks, ptr, SmallFile}
use cs111_ucla.Ospfs.Grow.Truncate.{Truncates, change_size-Truncates}
use cs111_ucla.Ospfs.Files.Bytes.{
  file_size, Keeps, Keeps-SmallFile, Keeps-Regular, Keeps-size, Keeps-data_at, Keeps-ptr,
}
use cs111_ucla.Ospfs.Names.{Name, length, maxnamelen, is_named, find_direntry}
use cs111_ucla.Ospfs.Names.Strings.{load32-moved}
use cs111_ucla.Ospfs.Names.Find.{Finds, found, absent, find_direntry-Finds}
use cs111_ucla.Ospfs.Directory.Entries.{num_entries, entry, dir_ino, dir_ino-absent}
use cs111_ucla.Ospfs.Directory.Slot.{
  IsDirectory, entry-inside, entry-behind, entry-data_at, slot-Keeps, slot-IsDirectory, slot-count,
  slot-entry, slot-others,
}
use cs111_ucla.Ospfs.Directory.Unlink.{
  unlink_from, drop_link, ospfs_unlink, unlink_from-found, unlink_from-absent,
}
use cs111_ucla.Ospfs.Directory.Unlinks.{
  Unlinkable, Unlinked, blanked, rest, file_kept, entry_blank, blank-Unlinked,
}

-- The number of links that are left.
abbrev pub links_left : Disk → ℕ → ℕ
links_left d oi = sub32 (load32 d (oi_nlink oi)) 1

-- How ospfs_unlink ends: the directory has not the name; or the name is removed, and the file
-- stays with one link less, or it has no link any more and its blocks are free.
pub data Unlinks (d : Disk) (dir oi : ℕ) (name : Name) : Result (Unit {0}) × Disk → Type 0 where
  no_entry : dir_ino d dir name ≡ none → Unlinks d dir oi name (err enoent, d)
  stays :
      (e : Disk)
      → links_left d oi ≢ 0
      → Unlinked d e dir name
      → load32 e (oi_nlink oi) ≡ links_left d oi
      → Keeps d e oi
      → Unlinks d dir oi name (ok tt, e)
  removed :
      (e : Disk)
      → links_left d oi ≡ 0
      → Unlinked d e dir name
      → load32 e (oi_nlink oi) ≡ 0
      → file_size e oi ≡ 0
      → ((i : ℕ) → i < blocks d oi → is_free e (ptr d oi i) ≡ true)
      → Unlinks d dir oi name (ok tt, e)

-- Freeing the blocks of a file keeps the files with other blocks.
module _ {b e : Disk} {dir oi : ℕ} (f : SmallFile b dir) (w : SmallFile b oi)
    (apart : (dir + 64 ≤ oi) ⊎ (oi + 64 ≤ dir))
    (foreign : (i j : ℕ) → i < blocks b oi → j < blocks b dir → ptr b oi i ≢ ptr b dir j)
    (t : Truncates oi b 0 e) where
  pub Truncates-Keeps : Keeps b e dir
  Truncates-Keeps = record {
    super = t.super;
    low_used = λ j h u.
        t.bits j (omega (arith, f.at.layout)) (λ i lo hi same. omega (arith, w.in_data i hi)) ∙ u;
    own_used =
        λ j h u. t.bits (ptr b dir j) (f.in_disk j h) (λ i lo hi same. foreign i j hi h same) ∙ u;
    inode = λ k h ne.
        load32-bytes (dir + 4 * k) b e
          λ y lo hi. t.bytes y (omega (arith, f.at)) (ground (arith, apart));
  }

module _ {d : Disk} {dir oi : ℕ} (u : Unlinkable d dir oi) (name : Name)
    (short : length name ≤ maxnamelen) (i : ℕ) (h : i < num_entries d dir)
    (named : is_named (entry d dir i) name d ≡ true) where
  b : Disk
  b = blanked d dir oi i (links_left d oi)

  r :
      (y : ℕ)
      → (y < oi) ⊎ (oi + 64 ≤ y)
      → (y < entry d dir i) ⊎ (entry d dir i + 128 ≤ y)
      → b y ≡ d y
  unfolding b
  r = rest u i h (links_left d oi)

  gb : IsDirectory b dir
  gb = slot-IsDirectory u.directory u.file.file.at u.apart i h r

  count_b : num_entries b dir ≡ num_entries d dir
  count_b = slot-count u.directory u.file.file.at u.apart i h r

  address_b : (j : ℕ) → j < num_entries d dir → entry b dir j ≡ entry d dir j
  address_b = slot-entry u.directory u.file.file.at u.apart i h r

  cleared_b : load32 b (entry b dir i) ≡ 0
  unfolding b
  cleared_b = ap (load32 b) (address_b i h) ∙ entry_blank u i h (links_left d oi)

  Unlinked-b : Unlinked d b dir name
  Unlinked-b =
      blank-Unlinked u name short i h named gb count_b
        (slot-others u.directory u.file.file.at u.apart i h r) cleared_b

  file_b : Keeps d b oi
  unfolding b
  file_b = file_kept u i h (links_left d oi)

  nlink_b : load32 b (oi_nlink oi) ≡ links_left d oi
  unfolding b
  nlink_b = load32-store32 (oi_nlink oi) (links_left d oi) _ ∙ omega arith

  small_b : SmallFile b oi
  small_b = Keeps-SmallFile u.file.file file_b

  dir_b : Keeps d b dir
  dir_b = slot-Keeps u.directory u.file.file.at u.apart i h r

  -- After the file's blocks are freed as well.
  module _ {e : Disk} (t : Truncates oi b 0 e) where
    foreign_b : (k j : ℕ) → k < blocks b oi → j < blocks b dir → ptr b oi k ≢ ptr b dir j
    foreign_b k j lk lj same =
        let file = u.file.file in
        let own = u.directory.regular.file in
        let lk' : k < blocks d oi = omega (arith, Keeps-size file file_b) in
        let lj' : j < blocks d dir = omega (arith, Keeps-size own dir_b) in
        u.foreign k j lk' lj' (
          sym (Keeps-ptr file file_b k (omega (arith, file.size_in)))
          ∙ same
          ∙ Keeps-ptr own dir_b j (omega (arith, own.size_in)))

    kept_e : Keeps b e dir
    kept_e = Truncates-Keeps gb.regular.file small_b u.apart foreign_b t

    ge : IsDirectory e dir
    ge = record {
      regular = Keeps-Regular gb.regular kept_e;
      whole = rw (Keeps-size gb.regular.file kept_e) gb.whole;
    }

    count_e : num_entries e dir ≡ num_entries d dir
    count_e = rw (Keeps-size gb.regular.file kept_e) count_b

    address_e : (j : ℕ) → j < num_entries d dir → entry e dir j ≡ entry b dir j
    address_e j l =
        let lb : j < num_entries b dir = omega (arith, count_b) in
        entry-data_at ge j (omega (arith, count_e))
        ∙ Keeps-data_at gb.regular kept_e (128 * j) (omega (arith, entry-inside gb j lb))
        ∙ sym (entry-data_at gb j lb)

    byte_e :
        (j x : ℕ) → j < num_entries d dir → x < 128 → e (entry e dir j + x) ≡ b (entry b dir j + x)
    byte_e j x l lx =
        let behind = entry-behind gb j (omega (arith, count_b)) in
        rw (address_e j l) (
          t.bytes (entry b dir j + x) (omega (arith, behind, small_b.at))
            (inr (omega (arith, behind, small_b.at))))

    nlink_e : load32 e (oi_nlink oi) ≡ links_left d oi
    nlink_e =
        let at : oi_nlink oi ≡ oi + 4 * 2 = omega arith in
        ap (load32 e) at ∙ t.fields 2 (omega arith) (omega arith) ∙ sym (ap (load32 b) at) ∙ nlink_b

    freed_e : (j : ℕ) → j < blocks d oi → is_free e (ptr d oi j) ≡ true
    freed_e j l =
        let file = u.file.file in
        rw (← Keeps-ptr file file_b j (omega (arith, file.size_in)))
          (t.freed j (omega arith) (omega (arith, Keeps-size file file_b)))

    Unlinked-e : Unlinked d e dir name
    Unlinked-e =
        blank-Unlinked u name short i h named ge count_e
          (λ j x l ne lx.
            byte_e j x l lx ∙ slot-others u.directory u.file.file.at u.apart i h r j x l ne lx)
          (load32-moved (entry b dir i) (entry e dir i) b e (λ x lx. byte_e i x h (omega arith))
            ∙ cleared_b)

-- After the loop, with the entry.
module _ {d : Disk} {dir oi : ℕ} (u : Unlinkable d dir oi) (name : Name)
    (short : length name ≤ maxnamelen) (i : ℕ) (h : i < num_entries d dir)
    (named : is_named (entry d dir i) name d ≡ true) where
  links_same : load32 (store32 (entry d dir i) 0 d) (oi_nlink oi) ≡ load32 d (oi_nlink oi)
  links_same =
      load32-Outside (entry d dir i) 4 (oi_nlink oi) d _ (store32-Outside (entry d dir i) 0 d)
        (inl (omega (arith, u.file.file.at, entry-behind u.directory i h)))

  drop_link-Unlinks : Unlinks d dir oi name (drop_link (entry d dir i) oi d)
  unfolding drop_link b
  drop_link-Unlinks = elim (Bool-cases (links_left d oi == 0)) [
    | inl last ↦
        let no_links : (load32 (b u name short i h named) (oi_nlink oi) == 0) ≡ true =
          ground (arith, nlink_b u name short i h named) in
        let (e, eq, small, size, t) =
          change_size-Truncates 0 (small_b u name short i h named) (omega arith) in
        rw (links_same, no_links, eq)
          (removed e (ground arith) (Unlinked-e u name short i h named t)
            (nlink_e u name short i h named t ∙ ground arith) size
            (freed_e u name short i h named t))
    | inr more ↦
        let links : (load32 (b u name short i h named) (oi_nlink oi) == 0) ≡ false =
          ground (arith, nlink_b u name short i h named) in
        rw (links_same, links)
          (stays (b u name short i h named) (ground arith) (Unlinked-b u name short i h named)
            (nlink_b u name short i h named) (file_b u name short i h named))
  ]

-- After the loop.
module _ {d : Disk} {dir oi : ℕ} (u : Unlinkable d dir oi) (name : Name)
    (short : length name ≤ maxnamelen) where
  size_of : 128 * num_entries d dir ≡ file_size d dir
  size_of = omega (arith, u.directory.whole, u.directory.regular.file.size_in)

  by_search :
      {o : Option ℕ}
      → Finds d dir 0 (num_entries d dir) name o
      → find_direntry dir name d ≡ o
      → Unlinks d dir oi name (ospfs_unlink oi dir name d)
  unfolding ospfs_unlink
  by_search (absent none_named) s =
      let off = unlink_from-absent d dir name (num_entries d dir) 0 0 none_named in
      let last : ((unlink_from (num_entries d dir) 0 0 dir name d).0 == file_size d dir) ≡ true =
        ground (arith, off, size_of) in
      rw last (no_entry (dir_ino-absent d dir name s))
  by_search (found i h named first) s =
      let stop = unlink_from-found d dir name (num_entries d dir) 0 0 i h named first in
      let inside : (0 + 128 * i == file_size d dir) ≡ false =
        ground (arith, entry-inside u.directory i h) in
      let regular : (load32 d (oi_ftype oi) == ftype_symlink) ≡ false =
        ground (arith, u.file.no_link) in
      rw (stop, inside, regular) (drop_link-Unlinks u name short i h named)

  -- For a file of at most ten blocks that is not a symbolic link, in a directory of at most ten blocks with names that are
  -- all different, whose blocks are not the file's, and a name of at most 123 bytes: ospfs_unlink answers -ENOENT if the
  -- directory has not the name, with the disk unchanged; or the name is gone and every other name as before, and
  -- the file stays with one link less, or without links has size 0 and its blocks are free.
  pub ospfs_unlink-Unlinks : Unlinks d dir oi name (ospfs_unlink oi dir name d)
  ospfs_unlink-Unlinks = by_search (find_direntry-Finds d dir name) refl
