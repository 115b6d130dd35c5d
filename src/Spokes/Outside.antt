-- ===== src/Spokes/Outside.antt =====
-- What the receive side uses of the world around it: git's programs, the file system and the text
-- of errors. None of it is the program's own, so it comes as values of these records.
use spokes_receive_pack.Base.{ℕ, Bool, List, Option, Bytes}
use spokes_receive_pack.Base.Exec.{Error}

-- One run of `git index-pack`.
pub record IndexPack : Type 0 where
  -- the error of cmd.Start
  pub start_error : Option Error
  -- what the reads of its standard error return, for a buffer of a size
  pub stderr_reads : ℕ → List Bytes
  -- how it ends, if its standard error was read to the end and if it was not
  pub exit_error : Bool → Option Error
  -- its standard output, if that comes within a second
  pub stdout : Option Bytes
  -- the input that it leaves
  pub unread : Bytes

pub record Git : Type 0 where
  -- `git index-pack` with arguments and an input
  pub index_pack : List Bytes → Bytes → IndexPack
  -- `git rev-list --objects --stdin --not --all …` with object ids on its input
  pub rev_list : List Bytes → Option Error
  -- `git rev-list --objects oid --not --all …`
  pub rev_list_object : Bytes → Option Error
  -- `git merge-base --is-ancestor old new`
  pub is_ancestor : Bytes → Bytes → Bool
  -- the lines of `git for-each-ref` with arguments, and how it ends
  pub for_each_ref : List Bytes → List Bytes × Option Error
  -- os.MkdirAll of the quarantine's pack directory
  pub make_quarantine_dirs : Option Error
  -- os.Stat: the size of a file that is there
  pub file_size : Bytes → Option ℕ
  -- err.Error()
  pub error_text : Error → Bytes
  -- the order in which Go goes over a map
  pub map_order : List (Bytes × List Bytes) → List (Bytes × List Bytes)
