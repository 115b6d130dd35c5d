-- ===== src/Main.antt =====
-- The programs: main of spokes-receive-pack.go, the executor of internal/receivepack/receivepack.go,
-- and the wrappers of the integration tests (internal/integration/util.go and cmd).
pub mod Exits
use spokes_receive_pack.Base.{ℕ, List, [], ◌∷◌, ◌++◌, Option, none, some, Bytes, codes}
use spokes_receive_pack.Base.Exec.{Result, ok, err, spent, Error, wrap}
use spokes_receive_pack.Spokes.Entry.{Machine, Exit, exec}
use spokes_receive_pack.Spokes.Execute.{World}

-- How the process ends: its exit code, what main prints on the standard error, and what Exec leaves.
-- The lines that the packages log there are not among what main prints.
pub record Ended : Type 0 where
  pub code : ℕ
  pub printed : Bytes
  pub exit : Exit

-- `fmt.Fprintf(os.Stderr, "error: %v\n", err)`, if there is one
unfoldable pub printed_error : (Error → Bytes) → Option Error → Bytes
printed_error text none = []
printed_error text (some e) = codes "error: " ++ (text e ++ b'\n' ∷ [])

-- What follows spokes.Exec in main
unfoldable pub leave_main : Machine → Result Exit → Result Ended
leave_main m (ok x) =
    ok (record { code = x.code; printed = printed_error m.programs.error_text x.error; exit = x })
leave_main m (err e) = err e
leave_main m spent = spent

-- main, with mainImpl
unfoldable pub main : Machine → World → Result Ended
main m w = leave_main m (exec m w)

-- A process to be started with an environment of its own, or with that of the program, and with
-- streams.
pub record Process (Stream : Type 0) : Type 0 where
  pub name : Bytes
  pub args : List Bytes
  pub env : Option (List Bytes)
  pub stdin : Stream
  pub stdout : Stream
  pub stderr : Stream

-- The ReceivePack of internal/receivepack/receivepack.go.
pub record ReceivePack (Stream : Type 0) : Type 0 where
  pub stdin : Stream
  pub stdout : Stream
  pub stderr : Stream
  pub args : List Bytes

module _ {Stream : Type 0} (run : Process Stream → Option Error) where
  -- ReceivePack.Execute
  unfoldable pub execute_receive_pack : ReceivePack Stream → Option Error
  execute_receive_pack r =
      elim (run (record {
        name = codes "git-receive-pack";
        args = r.args;
        env = none;
        stdin = r.stdin;
        stdout = r.stdout;
        stderr = r.stderr;
      })) [
        | none ↦ none
        | some e ↦
            some (wrap (codes "unexpected error executing the git-receive-pack Git command") e)
      ]

  -- RunMain, with what it prints; the program gives its own arguments and streams on.
  unfoldable pub run_main :
      (Error → Bytes) → Process Stream → List Bytes → List Bytes → Option Error × Bytes
  run_main text self environ env =
      elim (run (record {
        name = codes "spokes-receive-pack";
        args = self.args;
        env = some (environ ++ env);
        stdin = self.stdin;
        stdout = self.stdout;
        stderr = self.stderr;
      })) [
        | none ↦ (none, [])
        | some e ↦ (
          some e,
          codes "unexpected error running the spokes-receive-pack binary. Error: " ++ text e,
        )
      ]

  -- What follows integration.RunMain in the mains of the wrappers: the exit code, and what is printed.
  unfoldable pub leave_wrapper : (Error → Bytes) → Option Error × Bytes → ℕ × Bytes
  leave_wrapper text (none, printed) = (0, printed)
  leave_wrapper text (some e, printed) = (
    1,
    printed ++ (codes "unexpected error running the spokes-receive-pack binary. Error: " ++ text e),
  )

  -- main of cmd/spokes-receive-pack-wrapper
  unfoldable pub wrapper_main : (Error → Bytes) → Process Stream → List Bytes → ℕ × Bytes
  wrapper_main text self environ =
      leave_wrapper text (
        run_main text self environ (codes "GIT_SOCKSTAT_VAR_quarantine_id=test_quarantine_id" ∷ []))

  -- main of cmd/spokes-receive-pack-networked-wrapper
  unfoldable pub networked_wrapper_main : (Error → Bytes) → Process Stream → List Bytes → ℕ × Bytes
  networked_wrapper_main text self environ = leave_wrapper text (
      run_main text self environ (
        codes "GIT_SOCKSTAT_VAR_quarantine_id=test_quarantine_id"
        ∷ codes "GIT_SOCKSTAT_VAR_parent_repo_id=git-internals"
        ∷ codes "GIT_NW_ADVERTISE_TAGS=true"
        ∷ []))
