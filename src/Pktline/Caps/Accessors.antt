-- ===== src/Pktline/Caps/Accessors.antt =====
-- The accessors of internal/pktline/capabilities.go: a capability that is not there is the zero value.
use spokes_receive_pack.Base.{[], none, some, Bytes}
use spokes_receive_pack.Pktline.Caps
use spokes_receive_pack.Pktline.Caps.{Capability, Capabilities, get}

-- c.caps[key]
unfoldable pub at : Capabilities → Bytes → Capability
at c key = elim (get c key) [ none ↦ record { name = []; value = [] } | some cap' ↦ cap' ]

unfoldable pub multi_ack : Capabilities → Capability
unfolding at
multi_ack c = at c Caps.multi_ack

unfoldable pub multi_ack_detailed : Capabilities → Capability
unfolding at
multi_ack_detailed c = at c Caps.multi_ack_detailed

unfoldable pub no_done : Capabilities → Capability
unfolding at
no_done c = at c Caps.no_done

unfoldable pub thin_pack : Capabilities → Capability
unfolding at
thin_pack c = at c Caps.thin_pack

unfoldable pub side_band : Capabilities → Capability
unfolding at
side_band c = at c Caps.side_band

unfoldable pub side_band_64k : Capabilities → Capability
unfolding at
side_band_64k c = at c Caps.side_band_64k

unfoldable pub ofs_delta : Capabilities → Capability
unfolding at
ofs_delta c = at c Caps.ofs_delta

unfoldable pub agent : Capabilities → Capability
unfolding at
agent c = at c Caps.agent

unfoldable pub object_format : Capabilities → Capability
unfolding at
object_format c = at c Caps.object_format

unfoldable pub symref : Capabilities → Capability
unfolding at
symref c = at c Caps.symref

unfoldable pub shallow : Capabilities → Capability
unfolding at
shallow c = at c Caps.shallow

unfoldable pub deepen_since : Capabilities → Capability
unfolding at
deepen_since c = at c Caps.deepen_since

unfoldable pub deepen_not : Capabilities → Capability
unfolding at
deepen_not c = at c Caps.deepen_not

unfoldable pub deepen_relative : Capabilities → Capability
unfolding at
deepen_relative c = at c Caps.deepen_relative

unfoldable pub no_progress : Capabilities → Capability
unfolding at
no_progress c = at c Caps.no_progress

unfoldable pub include_tag : Capabilities → Capability
unfolding at
include_tag c = at c Caps.include_tag

unfoldable pub report_status : Capabilities → Capability
unfolding at
report_status c = at c Caps.report_status

unfoldable pub report_status_v2 : Capabilities → Capability
unfolding at
report_status_v2 c = at c Caps.report_status_v2

unfoldable pub delete_refs : Capabilities → Capability
unfolding at
delete_refs c = at c Caps.delete_refs

unfoldable pub quiet : Capabilities → Capability
unfolding at
quiet c = at c Caps.quiet

unfoldable pub atomic : Capabilities → Capability
unfolding at
atomic c = at c Caps.atomic

unfoldable pub push_options : Capabilities → Capability
unfolding at
push_options c = at c Caps.push_options

unfoldable pub allow_tip_sha1_in_want : Capabilities → Capability
unfolding at
allow_tip_sha1_in_want c = at c Caps.allow_tip_sha1_in_want

unfoldable pub allow_reachable_sha1_in_want : Capabilities → Capability
unfolding at
allow_reachable_sha1_in_want c = at c Caps.allow_reachable_sha1_in_want

unfoldable pub push_cert : Capabilities → Capability
unfolding at
push_cert c = at c Caps.push_cert

unfoldable pub filter : Capabilities → Capability
unfolding at
filter c = at c Caps.filter

unfoldable pub session_id : Capabilities → Capability
unfolding at
session_id c = at c Caps.session_id
