-- ===== src/ObjectFormat.antt =====
-- internal/objectformat/git.go: the hash of a repository and its null object id.
use spokes_receive_pack.Base.{ℕ, zero, suc, [], ◌∷◌, ◌||◌, Bytes, codes, if◌then◌else◌, equal}
use spokes_receive_pack.Base.Exec.{Result, ok, err, spent, quoted, wrap}
use spokes_receive_pack.Go.Strings.{trim_space}

zeros : ℕ → Bytes
zeros zero = []
zeros (suc n) = b'0' ∷ zeros n

unfoldable pub null_oid_sha1 : Bytes
unfolding zeros
null_oid_sha1 = zeros 40

unfoldable pub null_oid_sha256 : Bytes
unfolding zeros
null_oid_sha256 = zeros 64

-- GetObjectFormat, on what `git rev-parse --show-object-format` printed
unfoldable pub get_object_format : Result Bytes → Result Bytes
unfolding trim_space
get_object_format (ok out) =
    let value = trim_space out in
    if equal value (codes "sha1") || equal value (codes "sha256")
    then ok value
    else err (quoted (codes "unknown object format: ") value)
get_object_format (err e) = err (wrap (codes "reading git object format") e)
get_object_format spent = spent

-- ObjectFormat.NullOID
unfoldable pub null_oid : Bytes → Bytes
null_oid format = if equal format (codes "sha256") then null_oid_sha256 else null_oid_sha1
