-- ===== src/Fat/Mount.antt =====
-- Mounting a FAT32 volume (kernel/src/fat.rs). The disk is the volume: `set_base` says where it begins.
pub mod Inside
use package.solaros.Prelude.{
  ℕ, ◌+◌, ◌-◌, ◌*◌, ◌/◌, ◌^◌, ◌≤◌, ◌<◌, ◌≡◌, refl, sym, ◌∙◌, ap, Bool, true, false, ◌&&◌, ◌||◌, not,
  Option, none, some, List, get_or, ltb, leb, ◌==◌, arith, Bool-cases, inl, inr,
}
use package.solaros.Fs.{FsErr, FsKind, fat, Result, ok, err, no_device, not_formatted, io}
use solaros.Fat.{FsInfo, Disk, u32, get16, get32, first_sector}

-- The statics `INFO` of fat.rs and `MOUNT` of fs.rs.
pub record Mounted : Type 0 where
  pub info : Option FsInfo
  pub kind : Option FsKind

-- The tests on the boot sector that refuse it, up to the place of the data.
abbrev pub is_refused : List ℕ → Bool
is_refused b =
    not (get_or b 510 0 == 0x55)
    || not (get_or b 511 0 == 0xAA)
    || not (get16 b 11 == 512)
    || (get_or b 13 0 == 0)
    || ltb 128 (get_or b 13 0)
    || (get16 b 14 == 0)
    || (get_or b 16 0 == 0)
    || ltb 4 (get_or b 16 0)
    || ltb (get32 b 32) 70000
    || not (get16 b 22 == 0)
    || (get32 b 36 == 0)
    || ltb (get32 b 44) 2

abbrev pub data_start_of : List ℕ → ℕ
data_start_of b = u32 (get16 b 14 + u32 (get_or b 16 0 * get32 b 36))

abbrev pub clusters_of : List ℕ → ℕ
clusters_of b = (get32 b 32 - data_start_of b) / get_or b 13 0

abbrev pub info_of : List ℕ → FsInfo
info_of b = record {
  sec_per_clus = get_or b 13 0;
  rsvc = get16 b 14;
  num_fats = get_or b 16 0;
  fat_size = get32 b 36;
  root_clus = get32 b 44;
  data_start = data_start_of b;
  cluster_count = clusters_of b;
}

-- What the boot sector says of the volume.
pub read_boot : List ℕ → Result FsInfo
read_boot b = elim (is_refused b) [
  | true ↦ err not_formatted
  | false ↦ elim (leb (get32 b 32) (data_start_of b)) [
    | true ↦ err not_formatted
    | false ↦ elim (ltb (clusters_of b) 65525) [ true ↦ err not_formatted | false ↦ ok (info_of b) ]
  ]
]

module _ (d : Disk) where
  unfoldable pub mount_at : Bool → d.State → Mounted → Result (Unit {0}) × Mounted
  unfolding read_boot
  mount_at has_device s m = elim has_device [
    | false ↦ (err no_device, m)
    | true ↦ elim (d.read 0 s) [
      | none ↦ (err io, m)
      | some b ↦ elim (read_boot b) [
        | err e ↦ (err e, m)
        | ok i ↦ (ok tt, record { info = some i; kind = some fat })
      ]
    ]
  ]
