-- ===== src/Client/Chdir.antt =====
-- internal/integration/chdir.go: a test changes its directory, and changes back when it ends.
use spokes_receive_pack.Base.{List, [], ◌∷◌, Option, none, some, ◌≡◌, ◌⊎◌, inl, inr, refl, Bytes}
use spokes_receive_pack.Base.Exec.{Result, ok, err, spent, Error}

-- The directory of the process, and those that the functions given to t.Cleanup change back to, the
-- last first.
pub record Directory : Type 0 where
  pub wd : Bytes
  pub cleanups : List Bytes

module _ (getwd_error : Bytes → Option Error) (enter : Bytes → Bytes → Result Bytes) where
  -- What follows os.Chdir(dir)
  unfoldable changed : Directory → Result Bytes → Result (Unit {0}) × Directory
  changed s (ok dir) = (ok tt, record { wd = dir; cleanups = s.wd ∷ s.cleanups })
  changed s (err e) = (err e, s)
  changed s spent = (spent, s)

  -- What follows os.Getwd()
  unfoldable changing : Bytes → Directory → Option Error → Result (Unit {0}) × Directory
  unfolding changed
  changing dir s none = changed s (enter s.wd dir)
  changing dir s (some e) = (err e, s)

  -- chdir
  unfoldable pub chdir : Bytes → Directory → Result (Unit {0}) × Directory
  unfolding changing
  chdir dir s = changing dir s (getwd_error s.wd)

  -- The calls of a test, in order.
  unfoldable pub chdir_all : List Bytes → Directory → Directory
  unfolding chdir
  chdir_all [] s = s
  chdir_all (dir ∷ dirs) s = chdir_all dirs (chdir dir s).1

  -- The directory behind a function of t.Cleanup, whose error is only logged.
  unfoldable pub changed_back : Bytes → Result Bytes → Bytes
  changed_back wd (ok dir) = dir
  changed_back wd _ = wd

  -- The functions given to t.Cleanup, the last first.
  unfoldable pub clean_up : List Bytes → Bytes → Bytes
  unfolding changed_back
  clean_up [] wd = wd
  clean_up (dir ∷ dirs) wd = clean_up dirs (changed_back wd (enter wd dir))

  -- The last of the directories is this one.
  abbrev EndsIn : Bytes → List Bytes → Type 0
  EndsIn first [] = ⊥
  EndsIn first (dir ∷ []) = dir ≡ first
  EndsIn first (dir ∷ d ∷ dirs) = EndsIn first (d ∷ dirs)

  -- The way back leads to this directory.
  abbrev LeadsTo : Bytes → Directory → Type 0
  LeadsTo first s = ((s.cleanups ≡ []) × (s.wd ≡ first)) ⊎ EndsIn first s.cleanups

  EndsIn-more :
      (first dir : Bytes) (dirs : List Bytes) → EndsIn first dirs → EndsIn first (dir ∷ dirs)
  EndsIn-more first dir [] h = absurd h
  EndsIn-more first dir (d ∷ dirs) h = h

  changed-LeadsTo :
      (first : Bytes) (s : Directory) (r : Result Bytes)
      → LeadsTo first s
      → LeadsTo first (changed s r).1
  unfolding changed
  changed-LeadsTo first s (ok dir) (inl (e, h)) = inr (rw e h)
  changed-LeadsTo first s (ok dir) (inr h) = inr (EndsIn-more first s.wd s.cleanups h)
  changed-LeadsTo first s (err e) h = h
  changed-LeadsTo first s spent h = h

  changing-LeadsTo :
      (first dir : Bytes) (s : Directory) (o : Option Error)
      → LeadsTo first s
      → LeadsTo first (changing dir s o).1
  unfolding changing
  changing-LeadsTo first dir s none h = changed-LeadsTo first s (enter s.wd dir) h
  changing-LeadsTo first dir s (some e) h = h

  chdir_all-LeadsTo :
      (first : Bytes) (dirs : List Bytes) (s : Directory)
      → LeadsTo first s
      → LeadsTo first (chdir_all dirs s)
  unfolding chdir_all chdir
  chdir_all-LeadsTo first [] s h = h
  chdir_all-LeadsTo first (dir ∷ dirs) s h =
      chdir_all-LeadsTo first dirs (chdir dir s).1
        (changing-LeadsTo first dir s (getwd_error s.wd) h)

  clean_up-EndsIn :
      (first : Bytes) (dirs : List Bytes) (wd : Bytes)
      → ((x : Bytes) → enter x first ≡ ok first)
      → EndsIn first dirs
      → clean_up dirs wd ≡ first
  unfolding clean_up changed_back
  clean_up-EndsIn first [] wd k h = absurd h
  clean_up-EndsIn first (dir ∷ []) wd k h = rw (h, k wd) refl
  clean_up-EndsIn first (dir ∷ d ∷ dirs) wd k h = clean_up-EndsIn first (d ∷ dirs) _ k h

  clean_up-LeadsTo :
      (first : Bytes) (s : Directory)
      → ((x : Bytes) → enter x first ≡ ok first)
      → LeadsTo first s
      → clean_up s.cleanups s.wd ≡ first
  unfolding clean_up
  clean_up-LeadsTo first s k (inl (e, h)) = rw (e, h) refl
  clean_up-LeadsTo first s k (inr h) = clean_up-EndsIn first s.cleanups s.wd k h

  -- If a test begins in a directory that can be entered from everywhere, then after any calls of
  -- chdir, whether they succeed or not, the functions given to t.Cleanup bring it back there.
  pub clean_up-chdir_all :
      (first : Bytes) (dirs : List Bytes)
      → ((x : Bytes) → enter x first ≡ ok first)
      → (let s = chdir_all dirs (record { wd = first; cleanups = [] }) in clean_up s.cleanups s.wd)
        ≡ first
  clean_up-chdir_all first dirs k =
      clean_up-LeadsTo first (chdir_all dirs (record { wd = first; cleanups = [] })) k
        (chdir_all-LeadsTo first dirs (record { wd = first; cleanups = [] }) (inl (refl, refl)))
