-- ===== src/Fs/Tests/Link.antt =====
-- An entry "a" for inode 5 goes into an empty directory.
use computer_organization_an.Common.{
  ℕ, ◌≡◌, refl, inl, inr, Bool-cases, none, [], ◌∷◌, arith, ltb, true,
}
use computer_organization_an.Common.Outcome.{ok}
use computer_organization_an.Fs.{readsb, get32}
use computer_organization_an.Fs.Bitmap.{Bytes}
use computer_organization_an.Fs.Valid.{Room}
use computer_organization_an.Fs.Inode.{Inode}
use computer_organization_an.Fs.Mapping.{entry, slot}
use computer_organization_an.Fs.Files.{FileOk}
use computer_organization_an.Fs.Cache.{State, at_inode}
use computer_organization_an.Fs.Dir.{Devices, lookup_loop, dirlookup, dirlink}
use computer_organization_an.Fs.Link.{Linked, dirlink-Linked}
use computer_organization_an.Fs.Tests.{
  disk, disk-DiskOk, disk-Room, empty_file, no_read, no_write, name_a,
}

abbrev empty_dir : Inode
empty_dir = record empty_file { type = 1 }

abbrev link_state : State
link_state = record { disk = disk; cache = empty_dir ∷ [] }

abbrev no_devices : Devices
no_devices = record { devread = no_read; devwrite = no_write }

empty_dir-slot : (bn : ℕ) → slot disk empty_dir bn ≡ 0
unfolding slot entry
empty_dir-slot bn = elim (Bool-cases (ltb bn 12)) [ inl s ↦ rw s refl | inr s ↦ rw s refl ]

empty_dir-FileOk : FileOk disk empty_dir
unfolding readsb get32
empty_dir-FileOk = record {
  disk = disk-DiskOk;
  inode = record {
    owned = λ bn l n. absurd (n (empty_dir-slot bn));
    indirect = λ n. absurd (n refl);
    apart = λ bn l n. absurd (n (empty_dir-slot bn));
    distinct = λ bn bm l m n. absurd (n (empty_dir-slot bn));
  };
  mapped = λ bn l. absurd (omega (arith, l));
  small = omega arith;
  number = omega arith;
  no_device = λ e. absurd (omega (arith, e));
}

name_a-Bytes : Bytes name_a
name_a-Bytes o = ground arith

name_a_absent : dirlookup link_state 0 name_a ≡ ok (none, link_state)
unfolding dirlookup lookup_loop at_inode
name_a_absent = refl

two_free : Room disk 2
two_free = let r = disk-Room in omega (arith, r)

dirlink-Linked_example :
    (k : ℕ) × (s' : State) × (ip' : Inode) × (dirlink no_devices link_state 0 name_a 5
      ≡ ok (true, s'))
    × Linked link_state 0 empty_dir name_a 5 k s' ip'
dirlink-Linked_example =
    dirlink-Linked no_devices link_state 0 empty_dir name_a 5 refl empty_dir-FileOk refl
      (omega arith) name_a-Bytes two_free name_a_absent
