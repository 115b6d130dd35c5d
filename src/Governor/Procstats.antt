-- ===== src/Governor/Procstats.antt =====
-- internal/governor/procstats_linux.go: the use of the processor, the memory and the disk, for the
-- finish message. The files of /proc come as texts, `none` for one that cannot be read.
pub mod Measured
use spokes_receive_pack.Base.{
  ℕ, zero, suc, ◌+◌, ◌-◌, ◌*◌, ◌/◌, ◌%◌, ◌^◌, Bool, true, false, List, [], ◌∷◌, Option, none, some,
  Bytes, codes, if◌then◌else◌, drop, length, ltb, ◌==◌,
}
use spokes_receive_pack.Go.Strings.{has_prefix, index, split, fields}
use spokes_receive_pack.Go.Strconv.{Parsed, valid, parse_uint, returned, failed}
use spokes_receive_pack.Governor.Conn.{ProcStats}

-- syscall.Rusage: seconds and microseconds
pub record Rusage : Type 0 where
  pub user_sec : ℕ
  pub user_usec : ℕ
  pub system_sec : ℕ
  pub system_usec : ℕ

-- What the operating system answers.
pub record Proc : Type 0 where
  pub rusage : Option Rusage
  pub page_size : ℕ
  -- /proc/self/stat
  pub stat : Option Bytes
  -- /proc/self/io
  pub io : Option Bytes
  -- /proc/self/status
  pub status : Option Bytes

-- uint32(n)
abbrev uint32 : ℕ → ℕ
uint32 n = n % 2 ^ 32

unfoldable pub cpu_of : Option Rusage → ℕ
cpu_of none = 0
cpu_of (some u) = uint32 (
    uint32 (
      uint32 (uint32 (u.user_sec * 1000) + uint32 (u.user_usec / 1000))
      + uint32 (u.system_sec * 1000))
    + uint32 (u.system_usec / 1000))

-- The value that is kept, 0 beside an error.
unfoldable pub or_zero : Parsed → ℕ
or_zero (valid n) = n
or_zero _ = 0

abbrev pub peak_prefix : Bytes
peak_prefix = b'\n' ∷ codes "VmHWM:"

-- getPeakRSS of the text
unfoldable pub peak_of : Bytes → Option ℕ → ℕ
peak_of status none = 0
peak_of status (some i) = or_zero (parse_uint (drop i status) 10 64) * 1024 % 2 ^ 64

-- getPeakRSS
unfoldable pub get_peak_rss : Option Bytes → ℕ
get_peak_rss none = 0
get_peak_rss (some status) = peak_of status (index status peak_prefix)

-- fields[23], if there are more than 23 fields
unfoldable pub resident : List Bytes → ℕ → ℕ
resident [] page_size = 0
resident (f ∷ _) page_size = or_zero (parse_uint f 10 64) * page_size % 2 ^ 64

-- `if res.RSS == 0`
unfoldable pub rss_of : ℕ → ℕ → Option Bytes → ℕ
rss_of zero zero stat = 0
rss_of zero (suc page_size) none = 0
rss_of zero (suc page_size) (some stat) = resident (drop 23 (fields stat)) (suc page_size)
rss_of (suc peak) page_size stat = suc peak

-- The variables DiskReadBytes and DiskWriteBytes.
pub record Disk : Type 0 where
  pub read_bytes : ℕ
  pub write_bytes : ℕ

-- `if val > res.DiskWriteBytes`
unfoldable pub cancel : ℕ → Disk → Disk
cancel val d = record d { write_bytes = if ltb d.write_bytes val then 0 else d.write_bytes - val }

-- The body of the loop: each value is taken where ParseUint returns an error beside it.
unfoldable pub read_io_line : Bytes → Disk → Disk
read_io_line line d =
    if has_prefix line (codes "read_bytes: ")
    then (let val = parse_uint (drop 12 line) 10 64 in
        if failed val then record d { read_bytes = returned val } else d)
    else if has_prefix line (codes "write_bytes: ")
    then (let val = parse_uint (drop 13 line) 10 64 in
        if failed val then record d { write_bytes = returned val } else d)
    else if has_prefix line (codes "cancelled_write_bytes: ")
    then (let val = parse_uint (drop 23 line) 10 64 in
        if failed val then cancel (returned val) d else d)
    else d

-- The loop over the lines.
unfoldable pub read_io_lines : List Bytes → Disk → Disk
read_io_lines [] d = d
read_io_lines (line ∷ lines) d = read_io_lines lines (read_io_line line d)

unfoldable pub disk_of : Option Bytes → Disk
disk_of none = record { read_bytes = 0; write_bytes = 0 }
disk_of (some io) = read_io_lines (split io b'\n') (record { read_bytes = 0; write_bytes = 0 })

-- getProcStats
unfoldable pub get_proc_stats : Proc → ProcStats
get_proc_stats p =
    let disk = disk_of p.io in
    record {
      cpu = cpu_of p.rusage;
      rss = rss_of (get_peak_rss p.status) p.page_size p.stat;
      disk_read_bytes = disk.read_bytes;
      disk_write_bytes = disk.write_bytes;
    }
