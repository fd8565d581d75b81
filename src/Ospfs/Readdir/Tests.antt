-- ===== src/Ospfs/Readdir/Tests.antt =====
-- Reading the directory of the small disk in two parts.
use cs111_ucla.Prelude.{◌≡◌, refl, arith, true, false, [], ◌∷◌, ◌++◌}
use cs111_ucla.Ospfs.Disk.{load32}
use cs111_ucla.Ospfs.Index.{ospfs_inode, ospfs_inode_data, ospfs_inode_blockno}
use cs111_ucla.Ospfs.Readdir.{Filldir, refused, entry_at, read_entries, ospfs_dir_readdir}
use cs111_ucla.Ospfs.Readdir.Entries.{take_all}
use cs111_ucla.Ospfs.Readdir.Resume.{ospfs_dir_readdir-resumes}
use cs111_ucla.Ospfs.Directory.Tests.{dir_disk, root}

-- A filldir that takes one entry more than another one.
abbrev after_one : Filldir → Filldir
after_one f [] e = true
after_one f (x ∷ xs) e = f xs e

-- A filldir that takes two entries.
abbrev two : Filldir
two = after_one (after_one (λ taken e. false))

two_refuses : (ospfs_dir_readdir two 1 1 root dir_disk 0).stop ≡ refused
unfolding ospfs_dir_readdir read_entries entry_at load32 ospfs_inode ospfs_inode_data
    ospfs_inode_blockno
two_refuses = refl

ospfs_dir_readdir-resumes_example :
    (ospfs_dir_readdir two 1 1 root dir_disk 0).taken
      ++ (ospfs_dir_readdir take_all 1 1 root dir_disk
          (ospfs_dir_readdir two 1 1 root dir_disk 0).f_pos).taken
    ≡ (ospfs_dir_readdir take_all 1 1 root dir_disk 0).taken
unfolding load32
ospfs_dir_readdir-resumes_example =
    ospfs_dir_readdir-resumes two 1 1 root dir_disk (omega arith) 0 (omega arith) two_refuses
