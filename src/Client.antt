-- ===== src/Client.antt =====
-- internal/integration/parse.go: the client of the integration tests, which reads what the server
-- sends.
pub mod Packets
pub mod Advertised
pub mod Refs
pub mod Statuses
pub mod Chdir
use spokes_receive_pack.Base.{
  ℕ, zero, suc, ◌+◌, ◌-◌, Bool, true, false, not, ◌&&◌, List, [], ◌∷◌, ◌++◌, Option, none, some,
  Bytes, codes, length, take, drop, equal, ltb, ◌==◌, if◌then◌else◌,
}
use spokes_receive_pack.Base.Exec.{
  Result, ok, err, spent, Error, message, quoted, numbered, wrap, Exec, wrapping, pure, raise,
  out_of_fuel, lift, gets, ◌>>=◌, ◌>>◌,
}
use spokes_receive_pack.Go.Reader.{Reader, read_full}
use spokes_receive_pack.Go.Strings.{has_prefix, split_n, trim_suffix}
use spokes_receive_pack.Go.Strconv.{Parsed, valid, bad_syntax, out_of_range, parse_uint}

-- A map from names to texts, in the order of insertion.
abbrev pub Dict : Type 0
Dict = List (Bytes × Bytes)

unfoldable pub find : Dict → Bytes → Option Bytes
find [] k = none
find ((j, v) ∷ m) k = let rest = find m k in if equal j k then some v else rest

-- m[k] = v
unfoldable pub put : Dict → Bytes → Bytes → Dict
put [] k v = (k, v) ∷ []
put ((j, w) ∷ m) k v = let rest = put m k v in if equal j k then (j, v) ∷ m else (j, w) ∷ rest

-- The four bytes of a length, where the Read of a buffer of four returns all that there are.
unfoldable pub read_size : Exec Reader Bytes
read_size r = elim r.bytes [
  | [] ↦ (err r.ending, r)
  | c ∷ s ↦
      let got = take 4 (c ∷ s) in
      let left = record r { bytes = drop 4 (c ∷ s) } in
      if length got == 4
      then (ok got, left)
      else (err (numbered (codes "expected 4 bytes but got ") (length got)), left)
]

-- strconv.ParseUint(string(sizeBuf), 16, 16)
unfoldable pub size_of : Bytes → Result ℕ
size_of text = elim (parse_uint text 16 16) [
  | valid n ↦ ok n
  | bad_syntax ↦ err (quoted (codes "strconv.ParseUint: invalid syntax") text)
  | out_of_range n ↦ err (quoted (codes "strconv.ParseUint: value out of range") text)
]

-- The data, which stand beside an error of io.ReadFull too; the callers look at the error first.
unfoldable pub with_data : Result (Unit {0}) × Bytes × Reader → Result (Option Bytes) × Reader
with_data (ok u, got, rest) = (ok (some got), rest)
with_data (err e, got, rest) = (err e, rest)
with_data (spent, got, rest) = (spent, rest)

-- io.ReadFull of the data
unfoldable pub read_data : ℕ → Exec Reader (Option Bytes)
unfolding with_data
read_data n r = with_data (read_full r n)

-- readPktline; `none` is the nil of a flush
unfoldable pub read_pktline : Exec Reader (Option Bytes)
read_pktline = do
  text ← read_size
  n ← lift (size_of text)
  if n == 0
      then pure none
      else if ltb n 4
      then raise (quoted (codes "invalid length ") text)
      else read_data (n - 4)

-- The variables of readAdv.
pub record Adv : Type 0 where
  pub refs : Dict
  pub caps : Bytes
  pub first_line : Bool

-- `if firstLine { … }`: the line before the capabilities
unfoldable pub cut_adv : List Bytes → Bytes → Adv → Result (Bytes × Adv)
cut_adv (line ∷ caps ∷ []) pkt a = ok (line, record a { caps = caps; first_line = false })
cut_adv _ pkt a =
    err (quoted (codes "expected capabilities on first line of ref advertisement ") pkt)

unfoldable pub first_adv : Bytes → Adv → Result (Bytes × Adv)
first_adv pkt a = if a.first_line then cut_adv (split_n pkt 0 2) pkt a else ok (pkt, a)

-- The id and the name of a line.
unfoldable pub add_ref : Bytes → List Bytes → Adv → Result Adv
add_ref line (oid ∷ name ∷ []) a =
    let ref = trim_suffix name (codes "\n") in
    if length oid == 40
    then elim (find a.refs ref) [
      | none ↦ ok (record a { refs = put a.refs ref oid })
      | some _ ↦ err (quoted (codes "duplicate entry for ") ref)
    ]
    else err (quoted (codes "bad advertisement line: ") line)
add_ref line _ a = err (quoted (codes "bad advertisement line: ") line)

-- The body of the loop of readAdv.
unfoldable pub accept_adv : Bytes → Adv → Result Adv
accept_adv pkt a = elim (first_adv pkt a) [
  | ok (line, a') ↦ add_ref line (split_n line b' ' 2) a'
  | err e ↦ err e
  | spent ↦ spent
]

-- The loop of readAdv.
unfoldable pub adv_loop : ℕ → Adv → Exec Reader (Dict × Bytes)
adv_loop zero a = out_of_fuel
adv_loop (suc fuel) a = do
  pkt ← read_pktline
  elim pkt [
    | none ↦ pure (a.refs, a.caps)
    | some p ↦ do a' ← lift (accept_adv p a); adv_loop fuel a'
  ]

abbrev pub no_adv : Adv
no_adv = record { refs = []; caps = []; first_line = true }

-- readAdv; each packet takes bytes off the input
unfoldable pub read_adv : Exec Reader (Dict × Bytes)
read_adv = do fuel ← gets (λ r. suc (length r.bytes)); adv_loop fuel no_adv

-- The variables of parseSideband1.
pub record Status : Type 0 where
  pub refs : Dict
  pub unpack : Bytes

-- `parts := bytes.SplitN(…, " ", 2)` of a line with "ng "
unfoldable pub refuse_ref : List Bytes → Status → Status
refuse_ref (name ∷ reason ∷ []) s = record s { refs = put s.refs name (codes "ng " ++ reason) }
refuse_ref (name ∷ []) s = record s { refs = put s.refs name (codes "ng") }
refuse_ref _ s = s

-- `len(pkt) > 3 && pkt[2] == ' '`
unfoldable pub has_code : Bytes → Bool
has_code (a ∷ b ∷ c ∷ d ∷ s) = c == b' '
has_code _ = false

-- The cases of parseSideband1 for a packet with data.
unfoldable pub accept_status : Bytes → Status → Result Status
accept_status pkt s =
    if has_prefix pkt (codes "unpack ")
    then ok (record s { unpack = s.unpack ++ pkt })
    else if has_prefix pkt (codes "ng ")
    then ok (refuse_ref (split_n (trim_suffix (drop 3 pkt) (codes "\n")) b' ' 2) s)
    else if has_code pkt
    then ok (record s { refs = put s.refs (trim_suffix (drop 3 pkt) (codes "\n")) (take 2 pkt) })
    else err (quoted (codes "unrecognized status ") pkt)

-- The loop of parseSideband1.
unfoldable pub status_loop : ℕ → Status → Exec Reader Status
status_loop zero s = out_of_fuel
status_loop (suc fuel) s = do
  pkt ← wrapping (codes "while parsing sideband 1 packet") read_pktline
  elim pkt [ none ↦ pure s | some p ↦ do s' ← lift (accept_status p s); status_loop fuel s' ]

abbrev pub no_status : Status
no_status = record { refs = []; unpack = [] }

-- parseSideband1
unfoldable pub parse_sideband1 : Bytes → Result Status
parse_sideband1 text =
    (status_loop (suc (length text)) no_status (record { bytes = text; ending = Error.eof })).0

-- The variables of readResult.
pub record Answer : Type 0 where
  pub status : Option Status
  pub sideband : List Bytes

-- The cases of readResult for a packet with data; a packet of the second band adds all the output.
unfoldable pub accept_result : Bytes → Bytes → Answer → Result Answer
accept_result whole (b ∷ pkt) a =
    if b == 1
    then elim a.status [
      | some _ ↦ err (quoted (codes "repeated sideband 1 packet in ") whole)
      | none ↦ elim (parse_sideband1 pkt) [
        | ok s ↦ ok (record a { status = some s })
        | err e ↦ err e
        | spent ↦ spent
      ]
    ]
    else if b == 2
    then ok (record a { sideband = a.sideband ++ whole ∷ [] })
    else err (quoted (codes "todo: handle ") (b ∷ pkt))
accept_result whole [] a = err (quoted (codes "todo: handle ") [])

-- `case pkt == nil`
unfoldable pub end_result : Bytes → Answer → Result (Status × List Bytes)
end_result whole a = elim a.status [
  | none ↦ err (quoted (codes "no sideband 1 packet in ") whole)
  | some s ↦ ok (s, a.sideband)
]

-- The loop of readResult.
unfoldable pub result_loop : ℕ → Bytes → Answer → Exec Reader (Status × List Bytes)
result_loop zero whole a = out_of_fuel
result_loop (suc fuel) whole a = do
  pkt ← wrapping (codes "while parsing the output") read_pktline
  elim pkt [
    | none ↦ lift (end_result whole a)
    | some p ↦ do a' ← lift (accept_result whole p a); result_loop fuel whole a'
  ]

-- readResult, of all the output
unfoldable pub read_result : Bytes → Result (Status × List Bytes)
read_result whole =
    (result_loop (suc (length whole)) whole (record { status = none; sideband = [] })
      (record { bytes = whole; ending = Error.eof })).0
