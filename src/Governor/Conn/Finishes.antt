-- ===== src/Governor/Conn/Finishes.antt =====
-- The finish message is sent once (internal/governor/conn.go).
use spokes_receive_pack.Base.{ℕ, false, List, ◌++◌, Option, none, some, ◌≡◌, Bytes, ℤ}
use spokes_receive_pack.Base.Exec.{Error}
use spokes_receive_pack.Go.Writer.{holding}
use spokes_receive_pack.Governor.Messages
use spokes_receive_pack.Governor.Messages.{FinishData, finish_message}
use spokes_receive_pack.Governor.Schedule.{Line}
use spokes_receive_pack.Governor.Conn.{
  Conn, ProcStats, set_error, set_receive_pack_size, with_stats, finish,
}

-- What the program may do with the connection while it runs.
pub data Step : Option Conn → Option Conn → Type 0 where
  fail_with : (code : ℕ) (text : Bytes) (c : Option Conn) → Step c (set_error code text c)
  receive : (size : ℤ) (c : Option Conn) → Step c (set_receive_pack_size size c)
  end_with :
      (quote : Bytes → Bytes) (stats : ProcStats) (c : Option Conn) → Step c (finish quote stats c)

pub data Steps (c : Option Conn) : Option Conn → Type 0 where
  here : Steps c c
  next : {d e : Option Conn} → Steps c d → Step d e → Steps c e

-- The connection is gone and its socket is closed; this is what was sent.
pub record IsOver (line : Line) (c : Conn) : Type 0 where
  pub has_none : c.has_sock ≡ false
  pub same : c.line ≡ line

abbrev pub AllOver : Line → Option Conn → Type 0
AllOver line none = ⊥
AllOver line (some c) = IsOver line c

-- What is sent and left when an open connection ends.
abbrev pub ended : (Bytes → Bytes) → ProcStats → Bytes → Error → List ℤ → FinishData → Line
ended quote stats o e s f = record {
  writer = holding (o ++ finish_message quote (with_stats stats f)) e;
  is_open = false;
  slept = s;
}
