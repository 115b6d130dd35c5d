-- ===== src/Spokes/Discovery/Ends.antt =====
-- performReferenceDiscoveryIsolatedPipes of internal/spokes/spokes.go ends.
use spokes_receive_pack.Base.{
  ℕ, Bool, true, false, List, [], ◌∷◌, ◌++◌, Option, none, some, Bytes, codes, length, ltb, ◌==◌,
  Bool-cases, inl, inr,
}
use spokes_receive_pack.Base.Exec.{Result, ok, err, spent, Error, Exec, quoted, gets, wrapping}
use spokes_receive_pack.Base.Ends.{
  Ends, pure-Ends, raise-Ends, gets-Ends, >>=-Ends, >>-Ends, wrapping-Ends,
}
use spokes_receive_pack.Go.Writer.{Writer, write}
use spokes_receive_pack.ObjectFormat.{null_oid}
use spokes_receive_pack.Sockstat.{get_uint32}
use spokes_receive_pack.Spokes.HiddenRefs.{get_hidden_refs, split_rules}
use spokes_receive_pack.Spokes.Packet.{write_packet}
use spokes_receive_pack.Spokes.Packet.Ends.{write-Ends, write_packet-Ends}
use spokes_receive_pack.Spokes.Discovery.{
  Advert, Announcement, on_writer, now_written, advertise_next, advertise_ref, advertise_lines,
  ended, run_pipe, advertise_unhidden, advertise_network, advertise_parent, lonely_unless,
  lonely_capabilities, discover,
}

pub on_writer-Ends : (m : Exec Writer (Unit {0})) → Ends m → Ends (on_writer m)
unfolding on_writer
on_writer-Ends m k s h = k s.writer h

send-Ends : (text packet : Bytes) → Ends (wrapping text (on_writer (write_packet packet)))
send-Ends text packet =
    wrapping-Ends text (on_writer (write_packet packet))
      (on_writer-Ends (write_packet packet) (write_packet-Ends packet))

advertise_next-Ends : (caps line : Bytes) (wrote : Bool) → Ends (advertise_next caps line wrote)
unfolding advertise_next
advertise_next-Ends caps line true =
    send-Ends (codes "writing ref advertisement packet") (line ++ b'\n' ∷ [])
advertise_next-Ends caps line false =
    let packet = line ++ (0 ∷ (caps ++ b'\n' ∷ [])) in
    let text = codes "writing capability packet" in
    >>-Ends now_written (wrapping text (on_writer (write_packet packet))) (λ s h. cc h)
      (send-Ends text packet)

advertise_ref-Ends : (caps line : Bytes) → Ends (advertise_ref caps line)
unfolding advertise_ref
advertise_ref-Ends caps line = elim (Bool-cases (ltb (length line) 41)) [
  | inl y ↦ rw (advertise_ref, y) (raise-Ends (quoted (codes "malformed ref line: ") line))
  | inr n ↦
      rw (advertise_ref, n)
        (>>=-Ends (gets (λ (s : Advert). s.wrote_capabilities)) (advertise_next caps line)
          (gets-Ends (λ (s : Advert). s.wrote_capabilities)) (advertise_next-Ends caps line))
]

advertise_lines-Ends : (caps : Bytes) (lines : List Bytes) → Ends (advertise_lines caps lines)
unfolding advertise_lines
advertise_lines-Ends caps [] = pure-Ends tt
advertise_lines-Ends caps (l ∷ ls) =
    >>-Ends (advertise_ref caps l) (advertise_lines caps ls) (advertise_ref-Ends caps l)
      (advertise_lines-Ends caps ls)

ended-Ends : (e : Option Error) → Ends (ended e)
unfolding ended
ended-Ends none = pure-Ends tt
ended-Ends (some e) = raise-Ends e

run_pipe-Ends : (caps : Bytes) (reply : List Bytes × Option Error) → Ends (run_pipe caps reply)
unfolding run_pipe
run_pipe-Ends caps (ls, e) =
    >>-Ends (advertise_lines caps ls) (ended e) (advertise_lines-Ends caps ls) (ended-Ends e)

advertise_unhidden-Ends : (a : Announcement) (us : List Bytes) → Ends (advertise_unhidden a us)
unfolding advertise_unhidden
advertise_unhidden-Ends a [] = pure-Ends tt
advertise_unhidden-Ends a (u ∷ us) = wrapping-Ends _ _ (run_pipe-Ends a.capabilities _)

advertise_network-Ends :
    (a : Announcement) (id : ℕ) (n : Result Bytes) → Ends (advertise_network a id n)
unfolding advertise_network
advertise_network-Ends a id (ok n) = wrapping-Ends _ _ (run_pipe-Ends a.capabilities _)
advertise_network-Ends a id (err e) = pure-Ends tt
advertise_network-Ends a id spent = pure-Ends tt

advertise_parent-Ends : (a : Announcement) → Ends (advertise_parent a)
unfolding advertise_parent
advertise_parent-Ends a = elim (Bool-cases (get_uint32 a.env (codes "parent_repo_id") == 0)) [
  | inl y ↦ rw (advertise_parent, y) (pure-Ends tt)
  | inr n ↦
      rw (advertise_parent, n)
        (advertise_network-Ends a (get_uint32 a.env (codes "parent_repo_id")) a.network_repo_path)
]

lonely_unless-Ends : (a : Announcement) (wrote : Bool) → Ends (lonely_unless a wrote)
unfolding lonely_unless
lonely_unless-Ends a true = pure-Ends tt
lonely_unless-Ends a false =
    send-Ends (codes "writing lonely capability packet")
      (null_oid a.object_format ++ (codes " capabilities^{}" ++ (0 ∷ a.capabilities)))

pub lonely_capabilities-Ends : (a : Announcement) → Ends (lonely_capabilities a)
unfolding lonely_capabilities
lonely_capabilities-Ends a =
    >>=-Ends (gets (λ (s : Advert). s.wrote_capabilities)) (lonely_unless a)
      (gets-Ends (λ (s : Advert). s.wrote_capabilities)) (lonely_unless-Ends a)

pub flush-Ends : Ends (wrapping (codes "writing flush packet") (on_writer (write (codes "0000"))))
flush-Ends =
    wrapping-Ends (codes "writing flush packet") (on_writer (write (codes "0000")))
      (on_writer-Ends (write (codes "0000")) (write-Ends (codes "0000")))

pub discover-Ends : (a : Announcement) → Ends (discover a)
unfolding discover
discover-Ends a =
    let rules = split_rules (get_hidden_refs a.config) [] [] in
    >>-Ends _ _ (wrapping-Ends _ _ (run_pipe-Ends a.capabilities _)) (
      >>-Ends (advertise_unhidden a rules.1) _ (advertise_unhidden-Ends a rules.1) (
        >>-Ends (advertise_parent a) _ (advertise_parent-Ends a)
          (>>-Ends (lonely_capabilities a) _ (lonely_capabilities-Ends a) flush-Ends)))
