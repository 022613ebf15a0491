-- ===== src/Config.antt =====
-- rocket/rocket/common/config.{h,cpp}: what the configuration file sets. TinyXML is a parameter:
-- `elements n name` are the child elements that FirstChildElement and NextSiblingElement walk over,
-- and `text` is GetText.
pub mod Stubs
use rpc4grad.Prelude.{
  ℕ, suc, Bool, true, false, Option, none, some, List, [], ◌∷◌, ◌++◌, if◌then◌else◌, Outcome, ok,
  fault, null_pointer, ◌>>=◌,
}
use rpc4grad.Prelude.Int.{ℤ, pos, negsuc}
use rpc4grad.Prelude.Starts.{Start, started, exited, broken, ◌then◌, run_part}
use rpc4grad.MsgId.{str_eq}
use rpc4grad.NetAddr.{IpNetAddr, stoi, to_port, decimal, check_valid}

-- `addr` is a null pointer where the address is not valid.
pub record RpcStub : Type 0 where
  pub name : List ℕ
  pub addr : Option IpNetAddr
  pub timeout : ℤ

pub record Config : Type 0 where
  pub log_level : List ℕ
  pub log_file_name : List ℕ
  pub log_file_path : List ℕ
  pub log_max_file_size : ℤ
  pub log_flush_interval : ℤ
  pub port : ℤ
  pub io_threads : ℤ
  pub rpc_stubs : List (List ℕ × RpcStub)

-- The members before a constructor's body.
unfoldable pub blank_config : Config
blank_config = record {
  log_level = [];
  log_file_name = [];
  log_file_path = [];
  log_max_file_size = pos 0;
  log_flush_interval = pos 0;
  port = pos 0;
  io_threads = pos 0;
  rpc_stubs = [];
}

-- Config()
unfoldable pub default_config : Config
unfolding blank_config
default_config = record blank_config { log_level = b'D' ∷ b'E' ∷ b'B' ∷ b'U' ∷ b'G' ∷ [] }

-- std::map::find and insert. An insert leaves an entry that is there.
unfoldable pub find_stub : List ℕ → List (List ℕ × RpcStub) → Option RpcStub
find_stub name [] = none
find_stub name ((k, s) ∷ rest) = if str_eq k name then some s else find_stub name rest

unfoldable pub insert_stub : RpcStub → List (List ℕ × RpcStub) → List (List ℕ × RpcStub)
insert_stub s [] = (s.name, s) ∷ []
insert_stub s ((k, t) ∷ rest) =
    let later = insert_stub s rest in if str_eq k s.name then (k, t) ∷ rest else (k, t) ∷ later

-- std::to_string of an int.
unfoldable pub int_to_string : ℤ → List ℕ
unfolding decimal
int_to_string (pos n) = decimal 10 n
int_to_string (negsuc n) = b'-' ∷ decimal 10 (suc n)

-- The address of a stub. The port is converted to uint16_t where it is stored.
unfoldable pub stub_addr : (List ℕ → Bool) → List ℕ → ℤ → Outcome (Option IpNetAddr)
unfolding check_valid int_to_string
stub_addr inet ip port = check_valid inet (ip ++ (b':' ∷ int_to_string port)) >>= λ valid.
    ok (if valid then some (record { ip = ip; port = to_port port }) else none)

-- The elements that the file is searched for.
pub data NodeName : Type 0 where
  root_node log_node server_node log_level_node log_file_name_node log_file_path_node : NodeName
  log_max_file_size_node log_flush_interval_node port_node io_threads_node stubs_node : NodeName
  rpc_server_node name_node timeout_node ip_node : NodeName

pub record Xml (Node : Type 0) : Type 0 where
  pub elements : Node → NodeName → List Node
  pub text : Node → Option (List ℕ)

module _ {Node : Type 0} (xml : Xml Node) where
  abbrev pub first : Node → NodeName → Option Node
  first n name = elim (xml.elements n name) [ [] ↦ none | c ∷ cs ↦ some c ]

  -- READ_XML_NODE and READ_STR_FROM_XML_NODE end the process where a node or its text is missing.
  unfoldable pub read_node : NodeName → Node → Start Node
  read_node name n = elim (first n name) [ none ↦ exited 0 | some c ↦ started c ]

  unfoldable pub read_str : NodeName → Node → Start (List ℕ)
  read_str name n = elim (first n name) [
    | none ↦ exited 0
    | some c ↦ elim (xml.text c) [ none ↦ exited 0 | some s ↦ started s ]
  ]

  -- GetText of a missing element, and a std::string of a null pointer, are undefined.
  unfoldable pub stub_text : NodeName → Node → Outcome (List ℕ)
  stub_text name n = elim (first n name) [
    | none ↦ fault null_pointer
    | some c ↦ elim (xml.text c) [ none ↦ fault null_pointer | some s ↦ ok s ]
  ]

  abbrev pub stubs_under : Option Node → List Node
  stubs_under none = []
  stubs_under (some n) = xml.elements n rpc_server_node

  -- The parts of Config(xmlfile): what stands under `log`, under `server`, and the stubs.
  unfoldable pub load_log : Node → Config → Start Config
  unfolding read_str
  load_log log c = read_str log_level_node log then λ level.
      read_str log_file_name_node log then λ file_name.
      read_str log_file_path_node log then λ file_path.
      read_str log_max_file_size_node log then λ max_size.
      read_str log_flush_interval_node log then λ interval.
      run_part (stoi max_size) then λ log_max_file_size.
      run_part (stoi interval) then λ log_flush_interval. started (record c {
        log_level = level;
        log_file_name = file_name;
        log_file_path = file_path;
        log_max_file_size = log_max_file_size;
        log_flush_interval = log_flush_interval;
      })

  unfoldable pub load_server : Node → Config → Start Config
  unfolding read_str
  load_server server c = read_str port_node server then λ port.
      read_str io_threads_node server then λ threads. run_part (stoi port) then λ p.
      run_part (stoi threads) then λ io_threads.
      started (record c { port = p; io_threads = io_threads })

module _ {Node : Type 0} (xml : Xml Node) (inet : List ℕ → Bool) where
  unfoldable pub read_stub : Node → Outcome RpcStub
  unfolding stub_text stub_addr
  read_stub n = stub_text xml name_node n >>= λ name. stub_text xml timeout_node n >>= λ t.
      stoi t >>= λ timeout. stub_text xml ip_node n >>= λ ip. stub_text xml port_node n >>= λ p.
      stoi p >>= λ port.
      stub_addr inet ip port >>= λ addr. ok (record { name = name; addr = addr; timeout = timeout })

  unfoldable pub read_stubs :
      List Node → List (List ℕ × RpcStub) → Outcome (List (List ℕ × RpcStub))
  unfolding read_stub insert_stub
  read_stubs [] m = ok m
  read_stubs (n ∷ ns) m = read_stub n >>= λ s. read_stubs ns (insert_stub s m)

  unfoldable pub load_stubs : Node → Config → Outcome Config
  unfolding read_stubs
  load_stubs root c = read_stubs (stubs_under xml (first xml root stubs_node)) [] >>= λ stubs.
      ok (record c { rpc_stubs = stubs })

  -- Config(xmlfile). `document` is `none` where LoadFile fails.
  unfoldable pub load : Option Node → Start Config
  unfolding read_node load_log load_server load_stubs blank_config
  load none = exited 0
  load (some document) = read_node xml root_node document then λ root.
      read_node xml log_node root then λ log. read_node xml server_node root then λ server.
      load_log xml log blank_config then λ c.
      load_server xml server c then λ c'. run_part (load_stubs root c')

  -- setGlobalConfig. `file` is `none` for a null pointer, and else what LoadFile makes of the file.
  unfoldable set_global_config : Option (Option Node) → Option Config → Start (Option Config)
  unfolding load default_config
  set_global_config file (some c) = started (some c)
  set_global_config none none = started (some default_config)
  set_global_config (some document) none = load document then λ c. started (some c)
