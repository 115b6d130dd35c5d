-- ===== src/Spokes/Execute/Packs.antt =====
-- readPack of internal/spokes/spokes.go, where index-pack reads the pack, however it ends.
use spokes_receive_pack.Base.{
  ℕ, ◌≤◌, Bool, true, List, [], ◌++◌, Option, none, some, ◌≡◌, inl, inr, refl, Bytes, codes, length,
  All, Bool-cases, if◌then◌else◌, append-nil, ℤ,
}
use spokes_receive_pack.Base.Exec.{Result, err, ok, Error}
use spokes_receive_pack.Config.{Config}
use spokes_receive_pack.Go.Writer.{holding}
use spokes_receive_pack.Pktline.{Pktline}
use spokes_receive_pack.Pktline.Caps.{Capabilities}
use spokes_receive_pack.Pktline.Reads.{reading}
use spokes_receive_pack.Spokes.Command.{Command, include_non_deletes}
use spokes_receive_pack.Spokes.Limits.{get_max_input_size, get_warn_object_size}
use spokes_receive_pack.Spokes.Outside.{IndexPack, Git}
use spokes_receive_pack.Spokes.Report.{use_side_band, side_band_buf_size}
use spokes_receive_pack.Spokes.Unpack.{
  base_arguments, size_argument, add_sizes, index_pack_arguments,
}
use spokes_receive_pack.Spokes.Unpack.Bands.{error_frames, forward_stderr-holding}
use spokes_receive_pack.Spokes.Execute.{
  Session, World, finish_unpack, run_index_pack, unpack_with, read_pack,
}

-- With any arguments, `git index-pack` starts on this pack and says short things.
pub record ReadsPack (git : Git) (pack : Bytes) (run : IndexPack) : Type 0 where
  pub runs : (args : List Bytes) → git.index_pack args pack ≡ run
  pub starts : run.start_error ≡ none
  pub short : (n : ℕ) → All (λ p. length p ≤ 65515) (run.stderr_reads n)

-- What index-pack says of a push; a push that only deletes has no pack.
abbrev pub notes : List Command → IndexPack → Capabilities → List Bytes
notes commands run caps =
    if include_non_deletes commands then run.stderr_reads (side_band_buf_size caps) else []

-- A connection with some bytes left to read, and what was written to it.
abbrev pub connection : Pktline → Bytes → Error → Bytes → Error → Bool → ℕ → World
connection pl bytes e o f quarantined size = record {
  input = reading pl bytes e;
  output = holding o f;
  quarantined = quarantined;
  pack_size = size;
}

index_pack_arguments-ok :
    (git : Git) (c : Config) (env : Bytes → Bytes) (caps : Capabilities) (a b : ℤ)
    → get_max_input_size c env ≡ ok a
    → get_warn_object_size c ≡ ok b
    → (args : List Bytes) × (index_pack_arguments git c env caps ≡ ok args)
unfolding index_pack_arguments add_sizes
index_pack_arguments-ok git c env caps a b p q = (
  base_arguments git c env caps
      ++ (size_argument (codes "--max-input-size=") a
          ++ size_argument (codes "--warn-object-size=") b),
  rw (p, q) refl,
)

-- How index-pack ends.
abbrev pub unpacked : Option Error → Result (Unit {0})
unpacked none = ok tt
unpacked (some e) = err e

-- What readPack returns; a push that only deletes has no pack.
abbrev pub unpack_result : List Command → IndexPack → Result (Unit {0})
unpack_result commands run =
    if include_non_deletes commands then unpacked (run.exit_error true) else ok tt

finish_unpack-unpacked :
    (r : Session) (run : IndexPack) (o : Option Error) (s : World)
    → (n : ℕ) × (finish_unpack r run o s ≡ (unpacked o, record s { pack_size = n }))
unfolding finish_unpack
finish_unpack-unpacked r run none s = (_, refl)
finish_unpack-unpacked r run (some e) s = (s.pack_size, refl)

module _ (r : Session) (caps : Capabilities) (pack : Bytes) (run : IndexPack)
    (band : use_side_band caps ≡ true) (reads : ReadsPack r.announcement.git pack run) where
  run_index_pack-unpacked :
      (start : Option Error) (pl : Pktline) (o : Bytes) (e f : Error) (n : ℕ)
      → start ≡ none
      → (k : ℕ) × (run_index_pack r caps run start (connection pl pack e o f true n) ≡ (
        unpacked (run.exit_error true),
        connection pl run.unread e
            (o ++ error_frames (run.stderr_reads (side_band_buf_size caps)))
            f
            true
            k,
      ))
  unfolding run_index_pack
  run_index_pack-unpacked none pl o e f n h =
      let said = o ++ error_frames (run.stderr_reads (side_band_buf_size caps)) in
      let (k, q) =
        finish_unpack-unpacked r run (run.exit_error true)
          (connection pl run.unread e said f true n) in
      (k, rw (forward_stderr-holding caps run o f band (reads.short (side_band_buf_size caps))) q)
  run_index_pack-unpacked (some x) pl o e f n h = absurd (cc h)

  unpack_with-unpacked :
      (args : List Bytes) (pl : Pktline) (o : Bytes) (e f : Error) (n : ℕ)
      → (k : ℕ) × (unpack_with r caps args (connection pl pack e o f true n) ≡ (
        unpacked (run.exit_error true),
        connection pl run.unread e
            (o ++ error_frames (run.stderr_reads (side_band_buf_size caps)))
            f
            true
            k,
      ))
  unfolding unpack_with
  unpack_with-unpacked args pl o e f n =
      let (k, q) = run_index_pack-unpacked run.start_error pl o e f n reads.starts in
      (k, rw (reads.runs args) q)

  -- What is said of the pack is sent, however index-pack ends.
  pub read_pack-unpacked :
      (commands : List Command) (a b : ℤ) (pl : Pktline) (o : Bytes) (e f : Error) (n : ℕ)
      → get_max_input_size r.announcement.config r.announcement.env ≡ ok a
      → get_warn_object_size r.announcement.config ≡ ok b
      → (rest : Bytes) × (k : ℕ) × (read_pack r commands caps (connection pl pack e o f true n) ≡ (
        unpack_result commands run,
        connection pl rest e (o ++ error_frames (notes commands run caps)) f true k,
      ))
  unfolding read_pack
  read_pack-unpacked commands a b pl o e f n p q =
      elim (Bool-cases (include_non_deletes commands)) [
        | inl y ↦
            let (args, h) =
              index_pack_arguments-ok r.announcement.git r.announcement.config r.announcement.env
                caps a b p q in
            let (k, v) = unpack_with-unpacked args pl o e f n in (run.unread, k, rw (y, h) v)
        | inr x ↦ (pack, n, rw (x, append-nil) refl)
      ]
