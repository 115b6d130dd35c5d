-- ===== src/Tests/Packets.antt =====
-- Packets, capabilities and configuration on concrete bytes.
use spokes_receive_pack.Base.{
  ◌^◌, ◌*◌, ◌++◌, false, List, [], ◌∷◌, ◌≡◌, refl, arith, Bytes, codes, none, ℤ, pos, is_positive,
}
use spokes_receive_pack.Base.Exec.{ok}
use spokes_receive_pack.Go.Strings.{Free, split, trim_suffix}
use spokes_receive_pack.Go.Strconv.{decimal}
use spokes_receive_pack.Config.{Config, ConfigEntry, get_config, parse_signed, suffix_factor}
use spokes_receive_pack.Config.Listing.{listing, get_config-listing}
use spokes_receive_pack.Config.Sizes.{small_m, parse_signed_suffix, parse_signed_overflow}
use spokes_receive_pack.Pktline
use spokes_receive_pack.Pktline.{Pktline, is_flush, payload_bytes, capabilities_bytes, Input}
use spokes_receive_pack.Pktline.Caps.{
  Capability, Capabilities, parse_capabilities, collect, new_capability, capability_of_parts,
  insert,
}
use spokes_receive_pack.Pktline.Caps.{get as get_capability}
use spokes_receive_pack.Pktline.Caps.Parsing.{last_named, Parses, parse_capabilities_sound}
use spokes_receive_pack.Pktline.Caps.RoundTrip.{print_capabilities, parse-print_capabilities}
use spokes_receive_pack.Go.Strings.{lacks-Free}

abbrev text : Bytes
text = codes "hello"

no_zero : Free 0 text
no_zero = lacks-Free 0 text refl

abbrev agent : Capability
agent = record { name = codes "agent"; value = codes "git" }

abbrev both : Capabilities
both = record {
  caps = (codes "quiet", record { name = codes "quiet"; value = [] }) ∷ (codes "agent", agent) ∷ [];
}

both_parsed : parse_capabilities (codes "quiet agent=git\n") ≡ ok both
unfolding parse_capabilities trim_suffix split collect new_capability capability_of_parts insert
both_parsed = refl

parse_capabilities_sound_example :
    (cs : List Capability) × Parses
      (split (trim_suffix (codes "quiet agent=git\n") (b'\n' ∷ [])) b' ')
      cs
    × ((k : Bytes) → get_capability both k ≡ last_named none cs k)
parse_capabilities_sound_example = parse_capabilities_sound (codes "quiet agent=git\n") both_parsed

parse-print_capabilities_example :
    (caps : Capabilities) × (parse_capabilities (print_capabilities (agent ∷ [])) ≡ ok caps)
    × ((k : Bytes) → get_capability caps k ≡ last_named none (agent ∷ []) k)
parse-print_capabilities_example = parse-print_capabilities agent [] (
  (
    lacks-Free b'=' agent.name refl,
    lacks-Free b' ' agent.name refl,
    lacks-Free b'=' agent.value refl,
    lacks-Free b' ' agent.value refl,
  ),
  tt,
)

abbrev entry : ConfigEntry
entry = record { key = codes "a.b"; value = codes "1g" }

abbrev one_entry : Config
one_entry = record { entries = entry ∷ [] }

get_config-listing_example : get_config (ok (listing (entry ∷ []))) ≡ ok one_entry
get_config-listing_example =
    get_config-listing (entry ∷ [])
      (lacks-Free b'\n' entry.key refl, lacks-Free 0 entry.value refl, tt)

suffix_factor_g : suffix_factor b'g' ≡ 1024 * 1024 * 1024
unfolding suffix_factor
suffix_factor_g = refl

parse_signed_suffix_example : parse_signed (decimal 3 ++ b'm' ∷ []) ≡ ok (pos (3 * 2 ^ 20))
parse_signed_suffix_example = parse_signed_suffix 3 b'm' 20 small_m (omega arith) (omega arith)

-- 8589934592g is 2 ^ 63 bytes.
parse_signed_overflow_example :
    (z : ℤ) × (parse_signed (decimal 8589934592 ++ b'g' ∷ []) ≡ ok z) × (is_positive z ≡ false)
parse_signed_overflow_example =
    parse_signed_overflow 8589934592 b'g' (omega (arith, suffix_factor_g)) (omega arith)
      (omega (arith, suffix_factor_g)) (omega (arith, suffix_factor_g))
