-- ===== src/Governor/Conn.antt =====
-- Conn of internal/governor/conn.go. A nil *Conn is `none`, and so is a nil socket.
pub mod Finishes
use spokes_receive_pack.Base.{
  ℕ, Bool, true, false, List, [], Option, none, some, Bytes, if◌then◌else◌, ℤ, pos, negsuc, ltb,
}
use spokes_receive_pack.Governor.Messages
use spokes_receive_pack.Governor.Messages.{FinishData}
use spokes_receive_pack.Governor.Schedule.{Line, close}

-- procStats
pub record ProcStats : Type 0 where
  pub cpu : ℕ
  pub rss : ℕ
  pub disk_read_bytes : ℕ
  pub disk_write_bytes : ℕ

pub record Conn : Type 0 where
  -- is the socket there?
  pub has_sock : Bool
  -- what was written to it, and whether it is open
  pub line : Line
  pub finish : FinishData

-- SetError
unfoldable pub set_error : ℕ → Bytes → Option Conn → Option Conn
set_error exit_code text none = none
set_error exit_code text (some c) =
    some (record c { finish = record c.finish { result_code = exit_code; fatal = text } })

-- `if size > 0 { … }`
unfoldable pub with_size : ℤ → FinishData → FinishData
with_size (pos n) f = if ltb 0 n then record f { receive_pack_size = n } else f
with_size (negsuc n) f = f

-- SetReceivePackSize
unfoldable pub set_receive_pack_size : ℤ → Option Conn → Option Conn
unfolding with_size
set_receive_pack_size size none = none
set_receive_pack_size size (some c) = some (record c { finish = with_size size c.finish })

-- The data of the finish message.
unfoldable pub with_stats : ProcStats → FinishData → FinishData
with_stats stats f = record f {
  cpu = stats.cpu;
  rss = stats.rss;
  disk_read_bytes = stats.disk_read_bytes;
  disk_write_bytes = stats.disk_write_bytes;
}

-- Finish, where the socket is there: the error of the write is dropped.
unfoldable pub finish_open : (Bytes → Bytes) → ProcStats → Conn → Conn
finish_open quote stats c =
    let data' = with_stats stats c.finish in
    let (sent, w) = Messages.finish quote data' c.line.writer in
    record { has_sock = false; line = close (record c.line { writer = w }); finish = data' }

-- Finish
unfoldable pub finish : (Bytes → Bytes) → ProcStats → Option Conn → Option Conn
finish quote stats none = none
finish quote stats (some c) = some (if c.has_sock then finish_open quote stats c else c)
