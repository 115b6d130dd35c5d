-- ===== src/Go/Writer.antt =====
-- io.Writer as what was written and the number of calls of Write that will still succeed.
use spokes_receive_pack.Base.{ℕ, zero, suc, Bytes, Option, none, some, [], ◌++◌, ◌≡◌, refl}
use spokes_receive_pack.Base.Exec.{ok, err, Error, Exec}

pub record Writer : Type 0 where
  pub out : Bytes
  -- `none` for a buffer, or a connection that does not break
  pub room : Option ℕ
  -- what a Write on a broken connection returns
  pub fault : Error

-- w.Write(data), and fmt.Fprint of a text
unfoldable pub write : Bytes → Exec Writer (Unit {0})
write d w = elim w.room [
  | none ↦ (ok tt, record w { out = w.out ++ d })
  | some k ↦ elim k [
    | zero ↦ (err w.fault, w)
    | suc k' ↦ (ok tt, record w { out = w.out ++ d; room = some k' })
  ]
]

-- An empty bytes.Buffer.
abbrev pub buffer : Writer
buffer = record { out = []; room = none; fault = Error.eof }

-- A writer that never fails, with what it holds.
abbrev pub holding : Bytes → Error → Writer
holding o e = record { out = o; room = none; fault = e }

pub write-holding : (d o : Bytes) (e : Error) → write d (holding o e) ≡ (ok tt, holding (o ++ d) e)
unfolding write
write-holding d o e = refl
