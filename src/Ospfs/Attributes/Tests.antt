-- ===== src/Ospfs/Attributes/Tests.antt =====
-- A conditional symbolic link, "root?a:b", in an inode at offset 0.
use cs111_ucla.Prelude.{◌≡◌, refl, true, false, ◌==◌, if◌then◌else◌}
use cs111_ucla.Ospfs.Disk.{Disk}
use cs111_ucla.Ospfs.Names.{memcmp_is}
use cs111_ucla.Ospfs.Attributes.{strchr, null_write, ospfs_follow_link}
use cs111_ucla.Ospfs.Attributes.Follow.{follow_link_again}

abbrev link_disk : Disk
link_disk x =
    if x == 12
    then 114
    else if x == 13
    then 111
    else if x == 14
    then 111
    else if x == 15
    then 116
    else if x == 16
    then 63
    else if x == 17
    then 97
    else if x == 18
    then 58
    else if x == 19
    then 98
    else 0

follow_link_again_example :
    (ospfs_follow_link false 0 (ospfs_follow_link true 0 link_disk).1).0 ≡ null_write
unfolding ospfs_follow_link strchr memcmp_is
follow_link_again_example = follow_link_again 0 17 link_disk true false refl refl
