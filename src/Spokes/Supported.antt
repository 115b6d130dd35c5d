-- ===== src/Spokes/Supported.antt =====
-- The line of capabilities that the server announces (supportedCapabilities and Exec of
-- internal/spokes/spokes.go).
use spokes_receive_pack.Base.{
  Bool, true, not, ◌&&◌, List, [], ◌∷◌, ◌++◌, ◌≡◌, refl, ap, ◌∙◌, arith, Bytes, codes, equal,
  if◌then◌else◌, all, append_assoc, append-nil, Bool-cases, inl, inr,
}
use spokes_receive_pack.Go.Strings.{Free, split, split-Free, split-append}
use spokes_receive_pack.Pktline.Caps.{is_safe_capability_value, unsafe_byte}
use spokes_receive_pack.Config.{Config, get}
use spokes_receive_pack.Sockstat.{Environment, get_string}

-- supportedCapabilities
unfoldable pub supported_capabilities : Bytes → Bytes
supported_capabilities object_format =
    codes "report-status report-status-v2 delete-refs side-band-64k ofs-delta atomic object-format="
    ++ (object_format ++ codes " quiet")

-- The session id, for a request id that is there and safe.
unfoldable pub session_suffix : Bytes → Bytes
session_suffix request_id =
    if not (equal request_id []) && is_safe_capability_value request_id
    then codes " session-id=" ++ request_id
    else []

-- capabilitiesLine
unfoldable pub capabilities_line : Bytes → Bytes → Environment → Config → Bytes
capabilities_line object_format version env config =
    supported_capabilities object_format
    ++ (codes " agent=github/spokes-receive-pack-"
        ++ (version
            ++ (session_suffix (get_string env (codes "request_id"))
                ++ (if equal (get config (codes "receive.advertisePushOptions")) (codes "true")
                    then codes " push-options"
                    else []))))

safe-Free : (s : Bytes) → is_safe_capability_value s ≡ true → Free b' ' s
unfolding is_safe_capability_value unsafe_byte all
safe-Free [] h = tt
safe-Free (c ∷ s) h = (ground arith, safe-Free s (ground arith))

-- The request id as a capability, if it is there and safe.
abbrev pub session_parts : Bytes → List Bytes
session_parts request_id =
    if not (equal request_id []) && is_safe_capability_value request_id
    then (codes "session-id=" ++ request_id) ∷ []
    else []

abbrev pub push_options_parts : Config → List Bytes
push_options_parts config =
    if equal (get config (codes "receive.advertisePushOptions")) (codes "true")
    then codes "push-options" ∷ []
    else []

-- What stands behind the version.
abbrev tail : Bytes → Config → Bytes
tail id config =
    session_suffix id
    ++ (if equal (get config (codes "receive.advertisePushOptions")) (codes "true")
        then codes " push-options"
        else [])

split-push_options :
    (s : Bytes) (config : Config)
    → Free b' ' s
    → split
        (s
          ++ (if equal (get config (codes "receive.advertisePushOptions")) (codes "true")
              then codes " push-options"
              else []))
        b' '
      ≡ s ∷ push_options_parts config
split-push_options s config f =
    elim (Bool-cases (equal (get config (codes "receive.advertisePushOptions")) (codes "true"))) [
      | inl y ↦ rw (y, split-append b' ' s (codes "push-options") f) (unfold split in refl)
      | inr n ↦ rw (n, append-nil) (split-Free b' ' s f)
    ]

safe_of : (a b : Bool) → (a && b) ≡ true → b ≡ true
safe_of a b h = ground arith

split-session :
    (id : Bytes) (config : Config)
    → Free b' ' id
    → split
        (codes "session-id="
          ++ (id
              ++ (if equal (get config (codes "receive.advertisePushOptions")) (codes "true")
                  then codes " push-options"
                  else [])))
        b' '
      ≡ (codes "session-id=" ++ id) ∷ push_options_parts config
unfolding split
split-session id config f = rw (split-push_options id config f) refl

split-tail :
    (s id : Bytes) (config : Config)
    → Free b' ' s
    → split (s ++ tail id config) b' ' ≡ s ∷ (session_parts id ++ push_options_parts config)
unfolding session_suffix
split-tail s id config f = elim (Bool-cases (not (equal id []) && is_safe_capability_value id)) [
  | inl y ↦
      let rest =
        if equal (get config (codes "receive.advertisePushOptions")) (codes "true")
        then codes " push-options"
        else [] in
      rw y (
        split-append b' ' s (codes "session-id=" ++ (id ++ rest)) f
        ∙ ap (◌∷◌ s) (
            split-session id config
              (safe-Free id (safe_of (not (equal id [])) (is_safe_capability_value id) y))))
  | inr n ↦ rw n (split-push_options s config f)
]

-- If the object format and the version have no space, then the announced line consists, between
-- spaces, of the fixed capabilities, the object format, the agent with the version, the session id
-- exactly if the request id is there and safe, and push-options exactly if the configuration sets
-- it.
pub split-capabilities_line :
    (object_format version : Bytes) (env : Environment) (config : Config)
    → Free b' ' object_format
    → Free b' ' version
    → split (capabilities_line object_format version env config) b' '
      ≡ codes "report-status"
        ∷ codes "report-status-v2"
        ∷ codes "delete-refs"
        ∷ codes "side-band-64k"
        ∷ codes "ofs-delta"
        ∷ codes "atomic"
        ∷ (codes "object-format=" ++ object_format)
        ∷ codes "quiet"
        ∷ (codes "agent=github/spokes-receive-pack-" ++ version)
        ∷ (session_parts (get_string env (codes "request_id")) ++ push_options_parts config)
unfolding capabilities_line supported_capabilities split
split-capabilities_line object_format version env config f g =
    let id = get_string env (codes "request_id") in
    rw
      (
        append_assoc object_format (codes " quiet")
            (codes " agent=github/spokes-receive-pack-" ++ (version ++ tail id config)),
        split-append b' ' object_format
            (codes "quiet agent=github/spokes-receive-pack-" ++ (version ++ tail id config)) f,
        split-tail version id config g,
      )
      refl
