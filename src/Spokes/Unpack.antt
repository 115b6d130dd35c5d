-- ===== src/Spokes/Unpack.antt =====
-- readPack of internal/spokes/spokes.go: the pack is read by `git index-pack`, and what that says on
-- its standard error goes to the client in the second sideband.
pub mod Bands
use spokes_receive_pack.Base.{
  ℕ, suc, Bool, true, false, not, ◌&&◌, ◌||◌, List, [], ◌∷◌, ◌++◌, Option, none, some, Bytes, codes,
  if◌then◌else◌, length, drop, ltb, ℤ, pos, is_positive, all,
}
use spokes_receive_pack.Base.Exec.{
  Result, ok, err, spent, Error, wrap, Exec, pure, wrapping, ◌>>=◌, ◌>>◌,
}
use spokes_receive_pack.Go.Strings.{has_prefix, trim_suffix, trim_space}
use spokes_receive_pack.Go.Strconv.{decimal}
use spokes_receive_pack.Go.Writer.{Writer}
use spokes_receive_pack.Config.{Config, get_prefix}
use spokes_receive_pack.Sockstat.{Environment}
use spokes_receive_pack.Pktline.Caps.{Capabilities}
use spokes_receive_pack.Spokes.Limits.{
  is_fsck_config_enabled, allow_bad_date, get_max_input_size, get_warn_object_size,
}
use spokes_receive_pack.Spokes.Outside.{IndexPack, Git}
use spokes_receive_pack.Spokes.Packet.{write_packet}
use spokes_receive_pack.Spokes.RefLine.{is_hex_byte}
use spokes_receive_pack.Spokes.Report.{use_side_band, side_band_buf_size, is_quiet}

-- `result += key + "=" + value + ","`
unfoldable pub fsck_values : Bytes → List Bytes → Bytes
fsck_values key [] = []
fsck_values key (v ∷ vs) = key ++ (b'=' ∷ (v ++ (b',' ∷ fsck_values key vs)))

unfoldable pub fsck_settings : List (Bytes × List Bytes) → Bytes
fsck_settings [] = []
fsck_settings ((key, values) ∷ m) = fsck_values key values ++ fsck_settings m

-- The settings of `--strict`, and whether dates may be bad.
unfoldable pub strict_argument : List (Bytes × List Bytes) → Bool → Bytes
strict_argument [] false = codes "--strict"
strict_argument m bad_date =
    codes "--strict="
    ++ trim_suffix (fsck_settings m ++ (if bad_date then codes "baddate=warn," else [])) (codes ",")

-- A size that is positive becomes an argument.
unfoldable pub size_argument : Bytes → ℤ → List Bytes
size_argument name (pos n) = if ltb 0 n then (name ++ decimal n) ∷ [] else []
size_argument name _ = []

-- The arguments of index-pack up to the sizes.
unfoldable pub base_arguments : Git → Config → Environment → Capabilities → List Bytes
base_arguments git config env caps =
    codes "index-pack"
    ∷ codes "--stdin"
    ∷ ((if use_side_band caps then codes "--report-end-of-input" ∷ [] else [])
        ++ ((if use_side_band caps && not (is_quiet caps)
              then codes "--show-resolving-progress" ∷ []
              else [])
            ++ (codes "--fix-thin"
                ∷ (if is_fsck_config_enabled config
                    then strict_argument (git.map_order (get_prefix config (codes "receive.fsck.")))
                        (allow_bad_date env)
                      ∷ []
                    else []))))

-- All arguments, or the error of a size that is no number.
unfoldable pub add_sizes : List Bytes → Result ℤ → Result ℤ → Result (List Bytes)
add_sizes args (ok max_size) (ok warn_size) = ok (
    args
    ++ (size_argument (codes "--max-input-size=") max_size
        ++ size_argument (codes "--warn-object-size=") warn_size))
add_sizes args (ok max_size) (err e) = err e
add_sizes args (ok max_size) spent = spent
add_sizes args (err e) warn = err e
add_sizes args spent warn = spent

unfoldable pub index_pack_arguments :
    Git → Config → Environment → Capabilities → Result (List Bytes)
index_pack_arguments git config env caps =
    add_sizes (base_arguments git config env caps) (get_max_input_size config env)
      (get_warn_object_size config)

-- the loop of startSidebandMultiplexer
unfoldable pub multiplex : List Bytes → Exec Writer (Unit {0})
multiplex [] = pure tt
multiplex (chunk ∷ chunks) = do
  wrapping (codes "writing to error sideband") (write_packet (2 ∷ chunk))
  multiplex chunks

unfoldable pub succeeded : Result (Unit {0}) → Bool
succeeded (ok u) = true
succeeded _ = false

-- startSidebandMultiplexer and the wait for it, whose error is dropped: was the standard error read
-- to its end?
unfoldable pub forward_stderr : Capabilities → IndexPack → Writer → Bool × Writer
forward_stderr caps run w =
    if use_side_band caps
    then (
      succeeded (multiplex (run.stderr_reads (side_band_buf_size caps)) w).0,
      (multiplex (run.stderr_reads (side_band_buf_size caps)) w).1,
    )
    else (true, w)

-- isHex
unfoldable pub is_hex : Bytes → Bool
is_hex [] = false
is_hex (c ∷ s) = all is_hex_byte (c ∷ s)

-- The pack's id in the output of index-pack.
unfoldable pub pack_id : Option Bytes → Option Bytes
pack_id none = none
pack_id (some out) =
    let id = trim_space (drop 5 out) in
    if has_prefix out (codes "pack\t") || has_prefix out (codes "keep\t")
    then if is_hex id then some id else none
    else none
