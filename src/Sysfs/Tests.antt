-- ===== src/Sysfs/Tests.antt =====
-- A tree with two enclosures and three slots, the clock and the `locate` of slot 7.
use ktn_enclosure_manager.Common.{
  ℕ, ◌+◌, pos, negsuc, not, Bool, true, false, Option, none, some, List, [], ◌∷◌, if◌then◌else◌,
  ◌==◌, nat_eq, list_eq, int_eq, ◌≡◌, refl, arith,
}
use mathlib.Core.List.{Memᴰ}
use ktn_enclosure_manager.Common.Text.{Text, codes, strip, lower, starts_with}
use ktn_enclosure_manager.Errors.{ok}
use ktn_enclosure_manager.Sysfs.Tree.{Kernel, child, parse_int}
use ktn_enclosure_manager.Sysfs.Scan.{
  EnclosureRef, Roots, resolve, slot_state, slot_dir, read_slots, read_locate,
}
use ktn_enclosure_manager.Sysfs.Settle.{set_locate, Passes}
use ktn_enclosure_manager.Sysfs.Found.{slot_dir-read_slots}

abbrev pub World : Type 0
World = ℕ × Bool

abbrev sys : Text
sys = codes "/sys/class/enclosure"

abbrev pub shelf : Text
shelf = codes "/sys/class/enclosure/1:0:15:0"

abbrev other : Text
other = codes "/sys/class/enclosure/1:0:9:0"

abbrev names_of : Text → List Text
names_of p =
    if p == sys
    then codes "1:0:9:0" ∷ codes "1:0:15:0" ∷ []
    else if p == shelf
    then codes "Drive 7" ∷ codes "Drive 0" ∷ codes "power" ∷ []
    else codes "sg16" ∷ []

abbrev text_of : Bool → Text → Option Text
text_of lit p =
    if p == child shelf (codes "id")
    then some (codes "0x50060480AABBCC00\n")
    else if p == child other (codes "id")
    then some (codes "0x5000\n")
    else if p == child (child shelf (codes "Drive 7")) (codes "slot")
    then some (codes "7\n")
    else if p == child (child shelf (codes "Drive 0")) (codes "slot")
    then some (codes "0\n")
    else if p == child (child shelf (codes "Drive 7")) (codes "locate")
    then some (if lit then codes "1\n" else codes "0\n")
    else none

-- The light follows a write at once.
abbrev pub kernel : Kernel World
kernel = record {
  is_dir = λ w p. true;
  exists = λ w p. not (starts_with (child shelf (codes "power")) p);
  is_symlink = λ w p. false;
  real_path = λ w p. p;
  names = λ w p. names_of p;
  read_text = λ w p. text_of w.1 p;
  write_text = λ w p t. some (w.0, t == codes "1");
  monotonic = λ w. w.0;
  sleep = λ w ms. (w.0 + ms, w.1);
}

-- One in which the light never changes.
abbrev stuck : Kernel World
stuck = record kernel { write_text = λ w p t. some w }

pub kernel-Passes : Passes kernel
kernel-Passes w ms = omega arith

stuck-Passes : Passes stuck
stuck-Passes w ms = omega arith

abbrev pub roots : Roots
roots = record { sysfs_root = codes "/sys"; dev_root = codes "/dev" }

abbrev start : World
start = (100, false)

abbrev pub shelf_ref : EnclosureRef
shelf_ref = record {
  logical_id = codes "0x50060480aabbcc00";
  vendor = [];
  product = [];
  revision = [];
  scsi_address = codes "1:0:15:0";
  sysfs_path = shelf;
  sg_device = some (codes "/dev/sg16");
  bsg_device = some (codes "/dev/bsg/1:0:15:0");
  slot_count = 2;
}

resolve_test : resolve kernel start roots (codes " 0x50060480AABBCC00") ≡ ok shelf_ref
unfolding resolve strip lower starts_with
resolve_test = refl

parse_int_test : (parse_int (codes " -1_0\n") ≡ some (negsuc 9)) × (parse_int (codes "1__0") ≡ none)
unfolding parse_int
parse_int_test = (refl, refl)

-- A light that never settles: the last value, two seconds later.
set_locate_test : set_locate stuck shelf_ref (pos 7) true start ≡ (ok false, (2100, false))
unfolding set_locate starts_with
set_locate_test = refl

slot_dir_test : slot_dir kernel start shelf_ref (pos 7) ≡ ok (child shelf (codes "Drive 7"))
unfolding slot_dir starts_with
slot_dir_test = refl

slot_dir-read_slots_example :
    Memᴰ
      (slot_state kernel start (child shelf (codes "Drive 7")) (pos 7))
      (read_slots kernel start shelf_ref)
    × (read_locate kernel start shelf_ref (pos 7)
        ≡ ok (slot_state kernel start (child shelf (codes "Drive 7")) (pos 7)).locate)
slot_dir-read_slots_example =
    slot_dir-read_slots kernel start shelf_ref (pos 7) (child shelf (codes "Drive 7")) slot_dir_test
