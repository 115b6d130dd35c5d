-- ===== src/Spokes/Discovery/Shared.antt =====
-- performReferenceDiscovery of internal/spokes/spokes.go: one pipe for all the queries. Its
-- functions run at the same time and share the output and wroteCapabilities, so that a run is a
-- sequence of their turns.
pub mod Agrees
pub mod Alone
pub mod Mixed
pub mod Parents
pub mod Ends
pub mod Chunks
pub mod Shuffled
pub mod Interleaves
pub mod Outputs
use spokes_receive_pack.Base.{
  ℕ, zero, suc, ◌+◌, Bool, true, false, ◌&&◌, List, [], ◌∷◌, ◌++◌, Option, none, some, Bytes, codes,
  if◌then◌else◌, length, ltb, map, equal,
}
use spokes_receive_pack.Base.Exec.{
  Result, ok, err, spent, Error, quoted, numbered, wrap, Exec, pure, raise, wrapping, ◌>>=◌, ◌>>◌,
}
use spokes_receive_pack.Go.Strconv.{format_hex}
use spokes_receive_pack.Go.Writer.{Writer, write}
use spokes_receive_pack.Sockstat.{Environment}
use spokes_receive_pack.Spokes.HiddenRefs.{get_hidden_refs, split_rules}
use spokes_receive_pack.Spokes.Packet.{max_packet_data_length}
use spokes_receive_pack.Spokes.Discovery.{
  Advert, Announcement, ref_format, on_writer, lonely_capabilities,
}

-- Where a call of advertiseRef stands between two accesses of what is shared.
pub data Task : Type 0 where
  -- it is not called
  idle : Task
  -- it found wroteCapabilities unset, for this line
  marking : Bytes → Task
  -- it writes this packet: the length is next; the text is for an error
  sending : Bytes → Bytes → Task
  -- the length is written, the data are next
  finishing : Bytes → Bytes → Task
  -- it returned this error
  failed : Error → Task

-- A function of the pipe, and the lines that its git will still send.
pub record Collector : Type 0 where
  pub task : Task
  pub lines : List Bytes

abbrev again_text : Bytes
again_text = codes "writing ref advertisement packet"

abbrev first_text : Bytes
first_text = codes "writing capability packet"

-- `if len(line) < 41` and `if wroteCapabilities`
unfoldable pub take_line : Bytes → Bool → Task
take_line line wrote =
    if ltb (length line) 41
    then failed (quoted (codes "malformed ref line: ") line)
    else if wrote
    then sending again_text (line ++ b'\n' ∷ [])
    else marking line

-- What follows a Write: `next`, or the error in two texts.
unfoldable pub wrote_out :
    Bytes → Bytes → Task → List Bytes → Advert → Result (Unit {0}) × Writer → Collector × Advert
wrote_out text what next lines a (ok u, w) =
    (record { task = next; lines = lines }, record a { writer = w })
wrote_out text what next lines a (err e, w) =
    (record { task = failed (wrap text (wrap what e)); lines = lines }, record a { writer = w })
wrote_out text what next lines a (spent, w) =
    (record { task = next; lines = lines }, record a { writer = w })

-- The length of a packet, if the packet is not too long.
unfoldable pub send_size : Bytes → Bytes → List Bytes → Advert → Collector × Advert
unfolding wrote_out
send_size text packet lines a =
    if ltb max_packet_data_length (length packet)
    then (
      record {
        task =
            failed (
              wrap text
                (numbered (codes "data exceeds maximum pkt-line length: ") (length packet)));
        lines = lines;
      },
      a,
    )
    else wrote_out text (codes "writing packet length") (finishing text packet) lines a
        (write (format_hex (4 + length packet)) a.writer)

-- advertiseRef up to the next access of what is shared
unfoldable pub move : Bytes → Task → List Bytes → Advert → Collector × Advert
unfolding take_line send_size wrote_out
move capabilities idle [] a = (record { task = idle; lines = [] }, a)
move capabilities idle (line ∷ lines) a =
    (record { task = take_line line a.wrote_capabilities; lines = lines }, a)
move capabilities (marking line) lines a = (
  record { task = sending first_text (line ++ (0 ∷ (capabilities ++ b'\n' ∷ []))); lines = lines },
  record a { wrote_capabilities = true },
)
move capabilities (sending text []) lines a = (record { task = idle; lines = lines }, a)
move capabilities (sending text (b ∷ packet)) lines a = send_size text (b ∷ packet) lines a
move capabilities (finishing text packet) lines a =
    wrote_out text (codes "writing packet") idle lines a (write packet a.writer)
move capabilities (failed e) lines a = (record { task = failed e; lines = lines }, a)

-- A turn of the function with this number.
unfoldable pub turn : Bytes → ℕ → List Collector → Advert → List Collector × Advert
unfolding move
turn capabilities i [] a = ([], a)
turn capabilities zero (c ∷ cs) a =
    let (c', a') = move capabilities c.task c.lines a in (c' ∷ cs, a')
turn capabilities (suc i) (c ∷ cs) a = let (cs', a') = turn capabilities i cs a in (c ∷ cs', a')

-- The turns in the order in which they happen.
unfoldable pub run : Bytes → List ℕ → List Collector × Advert → List Collector × Advert
unfolding turn
run capabilities [] s = s
run capabilities (i ∷ is) (cs, a) = run capabilities is (turn capabilities i cs a)

-- The function has returned.
unfoldable pub is_over : Task → List Bytes → Bool
is_over idle [] = true
is_over (failed e) lines = true
is_over _ _ = false

unfoldable pub all_over : List Collector → Bool
unfolding is_over
all_over [] = true
all_over (c ∷ cs) = is_over c.task c.lines && all_over cs

unfoldable pub fault : Task → Option Error
fault (failed e) = some e
fault _ = none

-- The errors of the programs and of the functions, in the order of the pipe.
unfoldable pub faults : List (List Bytes × Option Error) → List Collector → List (Option Error)
unfolding fault
faults ((lines, end) ∷ replies) (c ∷ cs) = end ∷ fault c.task ∷ faults replies cs
faults _ _ = []

-- `if len(unhidden) > 0`
unfoldable pub unhidden_query : List Bytes → List (List Bytes)
unhidden_query [] = []
unhidden_query (u ∷ unhidden) = (codes "for-each-ref" ∷ ref_format ∷ u ∷ unhidden) ∷ []

-- The argument with the patterns of the parent's references.
unfoldable pub shared_patterns : Bytes → Bytes → Bytes
shared_patterns id advertise_tags =
    codes "refs/remotes/"
    ++ (id
        ++ (codes "/heads"
            ++ (if equal advertise_tags []
                then []
                else codes " refs/remotes/" ++ (id ++ codes "/tags"))))

unfoldable pub network_query : Bytes → Environment → Result Bytes → List (List Bytes)
network_query id env (ok network) =
    ((codes "--git-dir=" ++ network)
      ∷ codes "for-each-ref"
      ∷ codes "--format=%(objectname) .have"
      ∷ shared_patterns id (env (codes "GIT_NW_ADVERTISE_TAGS"))
      ∷ [])
    ∷ []
network_query id env _ = []

-- `if parentRepoId != ""`
unfoldable pub parent_query : Announcement → List (List Bytes)
parent_query a =
    let id = a.env (codes "GIT_SOCKSTAT_VAR_parent_repo_id") in
    if equal id [] then [] else network_query id a.env a.network_repo_path

-- The arguments of the programs of the pipe.
unfoldable pub queries : Announcement → List (List Bytes)
queries a =
    let rules = split_rules (get_hidden_refs a.config) [] [] in
    (codes "for-each-ref" ∷ ref_format ∷ map (λ (r : Bytes). codes "--exclude=" ++ r) rules.0)
    ∷ (unhidden_query rules.1 ++ parent_query a)

abbrev pub begin : List Bytes × Option Error → Collector
begin reply = record { task = idle; lines = reply.0 }

-- What p.Run returns of the errors of its stages is the pipe library's choice.
unfoldable pub run_result : Option Error → Exec Advert (Unit {0})
run_result none = pure tt
run_result (some e) = raise e

-- p.Run, once all its functions have returned
unfoldable pub finished :
    (List (Option Error) → Option Error)
    → List (List Bytes × Option Error)
    → List Collector × Advert
    → Result (Unit {0}) × Advert
unfolding run_result
finished choose replies (cs, a) =
    if all_over cs then run_result (choose (faults replies cs)) a else (spent, a)

-- p.Run
unfoldable pub run_all :
    (List (Option Error) → Option Error) → List ℕ → Announcement → Exec Advert (Unit {0})
unfolding finished
run_all choose turns a s =
    let replies = map a.git.for_each_ref (queries a) in
    finished choose replies (run a.capabilities turns (map begin replies, s))

-- performReferenceDiscovery
unfoldable pub discover_shared :
    (List (Option Error) → Option Error) → List ℕ → Announcement → Exec Advert (Unit {0})
unfolding on_writer run_all
discover_shared choose turns a = do
  wrapping (codes "collecting references") (run_all choose turns a)
  lonely_capabilities a
  wrapping (codes "writing flush packet") (on_writer (write (codes "0000")))
