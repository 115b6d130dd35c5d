-- ===== src/Main/Exits.antt =====
-- What main of spokes-receive-pack.go leaves, and that the wrappers pass the outcome on.
use spokes_receive_pack.Base.{
  false, [], Option, none, some, ◌≡◌, ◌≢◌, ◌⊎◌, inl, inr, refl, ap, ◌∙◌, Bytes,
}
use spokes_receive_pack.Base.Exec.{ok, spent, Error}
use spokes_receive_pack.Governor.Schedule.{start}
use spokes_receive_pack.Main.{Ended, printed_error, leave_main, main}
use spokes_receive_pack.Spokes.Entry.{Machine, Exit}
use spokes_receive_pack.Spokes.Entry.Exits.{HungUp, IsSettled, Discovers, exec-IsSettled}
use spokes_receive_pack.Spokes.Execute.{World}

-- The exit code is 0 and main prints nothing, or it is 1 or 75, main prints an error, and no
-- quarantine is left; and no socket is left open.
abbrev pub IsHonest : Ended → Type 0
IsHonest y =
    HungUp y.exit.line y.exit.conn
    × (((y.code ≡ 0) × (y.printed ≡ []))
        ⊎ (((y.code ≡ 1) ⊎ (y.code ≡ 75)) × (y.printed ≢ []) × (y.exit.world.quarantined ≡ false)))

printed_error-some :
    (text : Error → Bytes) (o : Option Error) → o ≢ none → printed_error text o ≢ []
unfolding printed_error
printed_error-some text none k h = k refl
printed_error-some text (some e) k h = cc h

printed_error-none :
    (text : Error → Bytes) (o : Option Error) → o ≡ none → printed_error text o ≡ []
unfolding printed_error
printed_error-none text none k = refl
printed_error-none text (some e) k = absurd (cc k)

ended-IsHonest :
    (m : Machine) (x : Exit) → IsSettled x → (y : Ended) × (leave_main m (ok x) ≡ ok y) × IsHonest y
unfolding leave_main
ended-IsHonest m x (c, inl (code, e)) =
    (_, refl, (c, inl (code, printed_error-none m.programs.error_text x.error e)))
ended-IsHonest m x (c, inr (code, e, q)) =
    (_, refl, (c, inr (code, printed_error-some m.programs.error_text x.error e, q)))

module _ (m : Machine) (w : World) (fresh : w.quarantined ≡ false)
    (hung_up : m.line.is_open ≡ false)
    (removes : (path : Bytes) → m.programs.remove_all path ≡ none)
    (configuration : m.config_output ≢ spent) (format_known : m.format_output ≢ spent)
    (directory : m.getwd ≢ spent) where
  -- If no quarantine and no open socket is there at first, the quarantine directories can be
  -- removed, the questions for the configuration, the object format and the directory are
  -- answered, by a value or an error, Start ends, and the shared reference discovery has turns
  -- enough where it is reached, then the program ends, no socket to the governor is left open, and
  -- either the exit code is 0 and main prints nothing, or it is 1 or 75, main prints an error, and
  -- the quarantine directories are gone.
  pub main-IsHonest :
      ((path : Bytes)
        → m.getwd ≡ ok path
        → ((start m.rounds m.daemon path m.line).0 ≢ spent)
          × Discovers m w fresh hung_up removes configuration format_known directory path)
      → (y : Ended) × (main m w ≡ ok y) × IsHonest y
  unfolding main
  main-IsHonest k =
      let (x, e, s) =
        exec-IsSettled m w fresh hung_up removes configuration format_known directory k in
      let (y, f, h) = ended-IsHonest m x s in (y, ap (leave_main m) e ∙ f, h)
