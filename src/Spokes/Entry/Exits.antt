-- ===== src/Spokes/Entry/Exits.antt =====
-- What Exec leaves on each of its ways out (internal/spokes/spokes.go).
use mathlib.Core.Path.{subst}
use spokes_receive_pack.Base.{
  true, sym, ℤ, equal, ◌||◌, ℕ, false, List, [], ◌∷◌, Option, none, some, ◌≡◌, ◌≢◌, ◌⊎◌, inl, inr,
  refl, Bytes, codes, pos, Bool-cases,
}
use spokes_receive_pack.Base.Exec.{Result, ok, err, spent, Error}
use spokes_receive_pack.Base.Inversion.{ok-injective}
use spokes_receive_pack.Config.{Config, get_config}
use spokes_receive_pack.Config.Listing.{get_config-ne-spent}
use spokes_receive_pack.Go.Strings.{trim_space}
use spokes_receive_pack.Governor.Conn.{
  Conn, ProcStats, with_size, set_receive_pack_size, set_error, finish, finish_open,
}
use spokes_receive_pack.Governor.Messages.{no_finish}
use spokes_receive_pack.Governor.Schedule.{Started, connected, unsupervised, refused, Line, start}
use spokes_receive_pack.Governor.Schedule.Leaves.{LeavesClosed, start-LeavesClosed}
use spokes_receive_pack.ObjectFormat.{get_object_format}
use spokes_receive_pack.Sockstat.{get_string}
use spokes_receive_pack.Spokes.Execute.{World, execute}
use spokes_receive_pack.Spokes.Execute.Ends.{DiscoveryRuns, execute-Ends}
use spokes_receive_pack.Spokes.Entry.{
  Machine, Exit, leave, leave_with, session_of, executed, quarantine, formatted, configured,
  started, located, entered, leave_early, with_line, remove_quarantine, check_arguments, exec,
}

-- No socket is open: neither that of the Conn, nor, where there is no Conn, one that Start left.
abbrev pub HungUp : Line → Option Conn → Type 0
HungUp l none = l.is_open ≡ false
HungUp l (some c) = (c.has_sock ≡ false) × (c.line.is_open ≡ false)

-- Success without an error, or an error, a code for it, and no quarantine left.
abbrev Concludes : Exit → Type 0
Concludes x =
    ((x.code ≡ 0) × (x.error ≡ none))
    ⊎ (((x.code ≡ 1) ⊎ (x.code ≡ 75)) × (x.error ≢ none) × (x.world.quarantined ≡ false))

abbrev pub IsSettled : Exit → Type 0
IsSettled x = HungUp x.line x.conn × Concludes x

-- A Conn while the program runs has its socket.
abbrev IsLive : Option Conn → Type 0
IsLive none = Unit
IsLive (some c) = c.has_sock ≡ true

-- The Conn at the end has none, and there is one if there was one.
abbrev Finishes : Option Conn → Option Conn → Type 0
Finishes none none = Unit
Finishes none (some d) = ⊥
Finishes (some c) none = ⊥
Finishes (some c) (some d) = (d.has_sock ≡ false) × (d.line.is_open ≡ false)

-- The exit, up to the connection that Start left.
abbrev Settles : Option Conn → Result Exit → Type 0
Settles c r = (x : Exit) × (r ≡ ok x) × Finishes c x.conn × Concludes x

-- The exit of Exec.
abbrev Exits : Result Exit → Type 0
Exits r = (x : Exit) × (r ≡ ok x) × IsSettled x

finish-Finishes :
    (quote : Bytes → Bytes) (stats : ProcStats) (c : Option Conn)
    → IsLive c
    → Finishes c (finish quote stats c)
unfolding finish finish_open
finish-Finishes quote stats none h = tt
finish-Finishes quote stats (some c) h = simp (h) (refl, refl)

set_error-Finishes :
    (quote : Bytes → Bytes) (stats : ProcStats) (code : ℕ) (text : Bytes) (c : Option Conn)
    → IsLive c
    → Finishes c (finish quote stats (set_error code text c))
unfolding set_error
set_error-Finishes quote stats code text none h = finish-Finishes quote stats none h
set_error-Finishes quote stats code text (some c) h =
    finish-Finishes quote stats
      (some (record c { finish = record c.finish { result_code = code; fatal = text } })) h

some-ne-none : (e : Error) → ◌≢◌ {A = Option Error} (some e) none
some-ne-none e h = cc h

leave-Settles :
    (m : Machine) (c : Option Conn) (w : World) → IsLive c → Settles c (leave m 0 none c w)
unfolding leave
leave-Settles m c w k = (_, refl, finish-Finishes _ _ c k, inl (refl, refl))

leave_with-Settles :
    (m : Machine) (e shown : Error) (c : Option Conn) (w : World)
    → IsLive c
    → w.quarantined ≡ false
    → Settles c (leave_with m e shown c w)
unfolding leave_with leave
leave_with-Settles m e shown c w k q = (
  _,
  refl,
  set_error-Finishes _ _ 1 (m.programs.error_text e) c k,
  inr (inl refl, some-ne-none shown, q),
)

-- Which Conn there is at first does not matter.
of_conn-Settles : (c d : Conn) (r : Result Exit) → Settles (some d) r → Settles (some c) r
of_conn-Settles c d r (x, e, f, g) = (x, e, same x.conn f, g)
  where
    same : (o : Option Conn) → Finishes (some d) o → Finishes (some c) o
    same none f = f
    same (some y) f = f

-- A size changes neither whether there is a Conn nor its socket.
sized-Settles :
    (size : ℤ) (c : Option Conn) (r : Result Exit)
    → (IsLive (set_receive_pack_size size c) → Settles (set_receive_pack_size size c) r)
    → IsLive c
    → Settles c r
unfolding set_receive_pack_size
sized-Settles size none r h k = h k
sized-Settles size (some c) r h k =
    of_conn-Settles c (record c { finish = with_size size c.finish }) r (h k)

removed : (o : Option Error) (w : World) → o ≡ none → (remove_quarantine o w).quarantined ≡ false
unfolding remove_quarantine
removed none w h = refl
removed (some e) w h = absurd (cc h)

executed-Settles :
    (m : Machine) (c : Option Conn) (folder : Bytes) (r : Result (Unit {0})) (w : World)
    → IsLive c
    → m.programs.remove_all folder ≡ none
    → r ≢ spent
    → Settles c (executed m c folder (r, w))
unfolding executed
executed-Settles m c folder (ok u) w l g k =
    sized-Settles (pos w.pack_size) c _
      (leave-Settles m (set_receive_pack_size (pos w.pack_size) c) w) l
executed-Settles m c folder (err e) w l g k =
    sized-Settles (pos w.pack_size) c _
      (λ l'.
        leave_with-Settles m e _ (set_receive_pack_size (pos w.pack_size) c) _ l'
          (removed (m.programs.remove_all folder) w g))
      l
executed-Settles m c folder spent w l g k = absurd (k refl)

-- With the line that Start left, if it is closed where there is no Conn.
abbrev Backed : Line → Option Conn → Type 0
Backed l none = l.is_open ≡ false
Backed l (some c) = c.has_sock ≡ true

with_line-Exits :
    (l : Line) (c : Option Conn) (r : Result Exit)
    → Backed l c
    → Settles c r
    → Exits (with_line l r)
unfolding with_line
with_line-Exits l c (ok y) b (x, e, f, g) =
    subst (λ (z : Exit). Exits (with_line l (ok z))) (sym (ok-injective e))
      (record x { line = l }, refl, (hung c x.conn b f, g))
  where
    hung : (c d : Option Conn) → Backed l c → Finishes c d → HungUp l d
    hung none none b f = b
    hung none (some d) b f = absurd f
    hung (some c) none b f = absurd f
    hung (some c) (some d) b f = f
with_line-Exits l c (err e) b (x, h, f, g) = absurd (cc h)
with_line-Exits l c spent b (x, h, f, g) = absurd (cc h)

get_object_format-ne-spent : (r : Result Bytes) → r ≢ spent → get_object_format r ≢ spent
unfolding get_object_format
get_object_format-ne-spent (ok out) k h =
    elim (Bool-cases
      (equal (trim_space out) (codes "sha1") || equal (trim_space out) (codes "sha256"))) [
        | inl y ↦ absurd (cc (rw (get_object_format, y) at h))
        | inr n ↦ absurd (cc (rw (get_object_format, n) at h))
      ]
get_object_format-ne-spent (err e) k h = absurd (cc h)
get_object_format-ne-spent spent k h = k refl

configured-ne-spent : (r : Result Bytes) → r ≢ spent → get_config r ≢ spent
unfolding get_config
configured-ne-spent (ok out) k h = get_config-ne-spent out h
configured-ne-spent (err e) k h = absurd (cc h)
configured-ne-spent spent k h = k refl

module _ (m : Machine) (w : World) (fresh : w.quarantined ≡ false)
    (hung_up : m.line.is_open ≡ false)
    (removes : (path : Bytes) → m.programs.remove_all path ≡ none)
    (configuration : m.config_output ≢ spent) (format_known : m.format_output ≢ spent)
    (directory : m.getwd ≢ spent) where
  -- The discovery of the references is not starved, where it is reached.
  abbrev pub Discovers : Bytes → Type 0
  Discovers path =
      (config : Config) (format : Bytes)
      → get_config m.config_output ≡ ok config
      → get_object_format m.format_output ≡ ok format
      → DiscoveryRuns
          (session_of m path config format (get_string m.daemon.env (codes "quarantine_id")))

  quarantine-Settles :
      (c : Option Conn) (path : Bytes) (config : Config) (format id : Bytes)
      → IsLive c
      → DiscoveryRuns (session_of m path config format id)
      → Settles c (quarantine m c path config format id w)
  unfolding quarantine
  quarantine-Settles c path config format [] l k = leave_with-Settles m _ _ c w l fresh
  quarantine-Settles c path config format (b ∷ id) l k =
      let s = session_of m path config format (b ∷ id) in
      let (r, v) = execute s w in
      executed-Settles m c s.quarantine_folder r v l (removes s.quarantine_folder)
        (execute-Ends s k w)

  formatted-Settles :
      (c : Option Conn) (path : Bytes) (config : Config) (f : Result Bytes)
      → IsLive c
      → f ≢ spent
      → ((format : Bytes)
          → f ≡ ok format
          → DiscoveryRuns
              (session_of m path config format (get_string m.daemon.env (codes "quarantine_id"))))
      → Settles c (formatted m c path config f w)
  unfolding formatted
  formatted-Settles c path config (ok format) l n k =
      quarantine-Settles c path config format (get_string m.daemon.env (codes "quarantine_id")) l
        (k format refl)
  formatted-Settles c path config (err e) l n k = leave_with-Settles m e e c w l fresh
  formatted-Settles c path config spent l n k = absurd (n refl)

  configured-Settles :
      (c : Option Conn) (path : Bytes) (r : Result Config)
      → IsLive c
      → get_config m.config_output ≡ r
      → r ≢ spent
      → Discovers path
      → Settles c (configured m c path r w)
  unfolding configured
  configured-Settles c path (ok config) l q n k =
      formatted-Settles c path config (get_object_format m.format_output) l
        (get_object_format-ne-spent m.format_output format_known) (λ format. k config format q)
  configured-Settles c path (err e) l q n k = leave_with-Settles m e e c w l fresh
  configured-Settles c path spent l q n k = absurd (n refl)

  early-Exits :
      (code : ℕ) (e : Error) (l : Line)
      → (code ≡ 1) ⊎ (code ≡ 75)
      → l.is_open ≡ false
      → Exits (leave_early code e w l)
  early-Exits code e l k h = (_, refl, (h, inr (k, some-ne-none e, fresh)))

  started-Exits :
      (path : Bytes) (s : Result Started) (l : Line)
      → LeavesClosed s l
      → s ≢ spent
      → Discovers path
      → Exits (started m path (s, l) w)
  unfolding started
  started-Exits path (ok connected) l h n k =
      with_line-Exits l (some (record { has_sock = true; line = l; finish = no_finish })) _ refl (
        configured-Settles (some (record { has_sock = true; line = l; finish = no_finish })) path
          (get_config m.config_output) refl refl (configured-ne-spent m.config_output configuration)
          k)
  started-Exits path (ok unsupervised) l h n k = with_line-Exits l none _ h (
      configured-Settles none path (get_config m.config_output) tt refl
        (configured-ne-spent m.config_output configuration) k)
  started-Exits path (ok (refused o)) l h n k = early-Exits 75 _ l (inr refl) h
  started-Exits path (err e) l h n k = absurd h
  started-Exits path spent l h n k = absurd (n refl)

  located-Exits :
      (d : Result Bytes)
      → d ≢ spent
      → ((path : Bytes)
          → d ≡ ok path
          → ((start m.rounds m.daemon path m.line).0 ≢ spent) × Discovers path)
      → Exits (located m d w)
  unfolding located
  located-Exits (ok path) n k =
      let (s, l) = start m.rounds m.daemon path m.line in
      started-Exits path s l (start-LeavesClosed m.rounds m.daemon path m.line hung_up)
        (k path refl).0 (k path refl).1
  located-Exits (err e) n k = early-Exits 1 e m.line (inl refl) hung_up
  located-Exits spent n k = absurd (n refl)

  -- If no quarantine and no socket is there at first, the quarantine directories can be removed,
  -- the questions for the configuration, the object format and the directory are answered, by a
  -- value or an error, and Start and the discovery end where they are reached, then Exec returns, no
  -- socket to the governor is left open, and either the exit code is 0 without an error, or it is 1
  -- or 75 with an error and the quarantine directories are gone.
  pub exec-IsSettled :
      ((path : Bytes)
        → m.getwd ≡ ok path
        → ((start m.rounds m.daemon path m.line).0 ≢ spent) × Discovers path)
      → (x : Exit) × (exec m w ≡ ok x) × IsSettled x
  unfolding exec check_arguments entered
  exec-IsSettled k = go m.arguments
    where
      with_directory : (e : Option Error) → Exits (entered m e w)
      with_directory none = located-Exits m.getwd directory k
      with_directory (some e) = early-Exits 1 _ m.line (inl refl) hung_up

      go : (names : List Bytes) → Exits (check_arguments m names w)
      go [] = early-Exits 1 _ m.line (inl refl) hung_up
      go (n ∷ []) = with_directory m.chdir_error
      go (n ∷ o ∷ ns) = early-Exits 1 _ m.line (inl refl) hung_up
