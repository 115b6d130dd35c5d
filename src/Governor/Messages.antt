-- ===== src/Governor/Messages.antt =====
-- The messages of internal/governor/governor.go, and readSockstat of internal/governor/conn.go.
pub mod Variables
use spokes_receive_pack.Base.{
  ℕ, ◌+◌, ◌*◌, Bool, true, false, List, [], ◌∷◌, ◌++◌, Option, none, some, Bytes, codes, equal,
  if◌then◌else◌,
}
use spokes_receive_pack.Base.Exec.{Exec}
use spokes_receive_pack.Go.Json.{Member, text, number, flag, omit_empty, print_command}
use spokes_receive_pack.Go.Strings.{cut_prefix, split_n}
use spokes_receive_pack.Go.Writer.{Writer, write}
use spokes_receive_pack.Sockstat.{
  Environment, prefix, string_value, uint32_value, bool_value, get_bool,
}

-- updateData
pub record UpdateData : Type 0 where
  pub pid : ℕ
  pub group_id : Bytes
  pub group_leader : Bool
  pub quality_of_service : Bytes
  pub program : Bytes
  pub git_dir : Bytes
  pub repo_name : Bytes
  pub repo_id : ℕ
  pub network_id : ℕ
  pub user_id : ℕ
  pub real_ip : Bytes
  pub request_id : Bytes
  pub user_agent : Bytes
  pub client_app : Bytes
  pub features : Bytes
  pub via : Bytes
  pub ssh_connection : Bytes
  pub babeld : Bytes
  pub git_protocol : Bytes
  pub pubkey_verifier_id : ℕ
  pub pubkey_creator_id : ℕ
  pub max_delay : ℕ
  pub command_id : Bytes
  pub is_importing : Bool
  pub import_skip_push_limit : Bool
  pub import_soft_throttling : Bool

-- the zero value
abbrev pub no_update : UpdateData
no_update = record {
  pid = 0;
  group_id = [];
  group_leader = false;
  quality_of_service = [];
  program = [];
  git_dir = [];
  repo_name = [];
  repo_id = 0;
  network_id = 0;
  user_id = 0;
  real_ip = [];
  request_id = [];
  user_agent = [];
  client_app = [];
  features = [];
  via = [];
  ssh_connection = [];
  babeld = [];
  git_protocol = [];
  pubkey_verifier_id = 0;
  pubkey_creator_id = 0;
  max_delay = 0;
  command_id = [];
  is_importing = false;
  import_skip_push_limit = false;
  import_soft_throttling = false;
}

-- The members of the JSON object, each with the tag omitempty.
unfoldable pub update_members : UpdateData → List Member
update_members u =
    (codes "pid", number u.pid)
    ∷ (codes "group_id", text u.group_id)
    ∷ (codes "group_leader", flag u.group_leader)
    ∷ (codes "qos", text u.quality_of_service)
    ∷ (codes "program", text u.program)
    ∷ (codes "git_dir", text u.git_dir)
    ∷ (codes "repo_name", text u.repo_name)
    ∷ (codes "repo_id", number u.repo_id)
    ∷ (codes "network_id", number u.network_id)
    ∷ (codes "user_id", number u.user_id)
    ∷ (codes "real_ip", text u.real_ip)
    ∷ (codes "request_id", text u.request_id)
    ∷ (codes "user_agent", text u.user_agent)
    ∷ (codes "client_app", text u.client_app)
    ∷ (codes "features", text u.features)
    ∷ (codes "via", text u.via)
    ∷ (codes "ssh_connection", text u.ssh_connection)
    ∷ (codes "babeld", text u.babeld)
    ∷ (codes "git_protocol", text u.git_protocol)
    ∷ (codes "pubkey_verifier_id", number u.pubkey_verifier_id)
    ∷ (codes "pubkey_creator_id", number u.pubkey_creator_id)
    ∷ (codes "max_delay", number u.max_delay)
    ∷ (codes "command_id", text u.command_id)
    ∷ (codes "is_importing", flag u.is_importing)
    ∷ (codes "import_skip_push_limit", flag u.import_skip_push_limit)
    ∷ (codes "import_soft_throttling", flag u.import_soft_throttling)
    ∷ []

unfoldable pub update_message : (Bytes → Bytes) → UpdateData → Bytes
unfolding update_members
update_message quote u = print_command quote (codes "update") (omit_empty (update_members u))

-- update
unfoldable pub update : (Bytes → Bytes) → UpdateData → Exec Writer (Unit {0})
update quote u = write (update_message quote u)

-- finishData
pub record FinishData : Type 0 where
  pub result_code : ℕ
  pub cpu : ℕ
  pub disk_read_bytes : ℕ
  pub disk_write_bytes : ℕ
  pub rss : ℕ
  pub uploaded_bytes : ℕ
  pub receive_pack_size : ℕ
  pub cloning : ℕ
  pub fatal : Bytes

abbrev pub no_finish : FinishData
no_finish = record {
  result_code = 0;
  cpu = 0;
  disk_read_bytes = 0;
  disk_write_bytes = 0;
  rss = 0;
  uploaded_bytes = 0;
  receive_pack_size = 0;
  cloning = 0;
  fatal = [];
}

-- The members with the tag omitempty, which all but the first have.
unfoldable pub finish_members : FinishData → List Member
finish_members f =
    (codes "result_code", number f.result_code)
    ∷ omit_empty (
        (codes "cpu", number f.cpu)
        ∷ (codes "disk_read_bytes", number f.disk_read_bytes)
        ∷ (codes "disk_write_bytes", number f.disk_write_bytes)
        ∷ (codes "rss", number f.rss)
        ∷ (codes "uploaded_bytes", number f.uploaded_bytes)
        ∷ (codes "receive_pack_size", number f.receive_pack_size)
        ∷ (codes "cloning", number f.cloning)
        ∷ (codes "fatal", text f.fatal)
        ∷ [])

unfoldable pub finish_message : (Bytes → Bytes) → FinishData → Bytes
unfolding finish_members
finish_message quote f = print_command quote (codes "finish") (finish_members f)

-- finish
unfoldable pub finish : (Bytes → Bytes) → FinishData → Exec Writer (Unit {0})
finish quote f = write (finish_message quote f)

-- The switch of readSockstat over the name of a variable.
unfoldable pub assign : Environment → Bytes → Bytes → UpdateData → UpdateData
assign env name v u =
    if equal name (codes "repo_name")
    then record u { repo_name = string_value v }
    else if equal name (codes "repo_id")
    then record u { repo_id = uint32_value v }
    else if equal name (codes "network_id")
    then record u { network_id = uint32_value v }
    else if equal name (codes "user_id")
    then record u { user_id = uint32_value v }
    else if equal name (codes "real_ip")
    then record u { real_ip = string_value v }
    else if equal name (codes "request_id")
    then record u { request_id = string_value v }
    else if equal name (codes "user_agent")
    then record u { user_agent = string_value v }
    else if equal name (codes "features")
    then record u { features = string_value v }
    else if equal name (codes "via")
    then record u { via = string_value v }
    else if equal name (codes "ssh_connection")
    then record u { ssh_connection = string_value v }
    else if equal name (codes "babeld")
    then record u { babeld = string_value v }
    else if equal name (codes "git_protocol")
    then record u { git_protocol = string_value v }
    else if equal name (codes "pubkey_verifier_id")
    then record u { pubkey_verifier_id = uint32_value v }
    else if equal name (codes "pubkey_creator_id")
    then record u { pubkey_creator_id = uint32_value v }
    else if equal name (codes "max_delay")
    then record u { max_delay = uint32_value v }
    else if equal name (codes "command_id")
    then record u { command_id = string_value v }
    else if equal name (codes "group_id")
    then record u { group_id = string_value v }
    else if equal name (codes "group_leader")
    then record u { group_leader = get_bool env v }
    else if equal name (codes "is_importing")
    then record u { is_importing = bool_value v }
    else if equal name (codes "import_skip_push_limit")
    then record u { import_skip_push_limit = bool_value v }
    else if equal name (codes "import_soft_throttling")
    then record u { import_soft_throttling = bool_value v }
    else u

-- `parts := strings.SplitN(env, "=", 2)`
unfoldable pub assign_parts : Environment → List Bytes → UpdateData → UpdateData
assign_parts env (name ∷ v ∷ []) u = assign env name v u
assign_parts env _ u = u

-- The body of the loop of readSockstat.
unfoldable pub read_variable : Environment → Bytes → UpdateData → UpdateData
unfolding assign_parts
read_variable env entry u = elim (cut_prefix entry prefix) [
  | none ↦ u
  | some rest ↦ assign_parts env (split_n rest b'=' 2) u
]

-- readSockstat, of the process's variables as text and as a function
unfoldable pub read_sockstat : Environment → List Bytes → UpdateData → UpdateData
read_sockstat env [] u = u
read_sockstat env (entry ∷ entries) u = read_sockstat env entries (read_variable env entry u)
