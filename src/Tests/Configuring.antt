-- ===== src/Tests/Configuring.antt =====
-- config.cpp and FindAddr at a file whose elements are named by their place.
use rpc4grad.Prelude.{
  ℕ, ◌≡◌, refl, if◌then◌else◌, Bool, true, false, Option, none, some, List, [], ◌∷◌, ok, fault,
  null_pointer,
}
use rpc4grad.Prelude.Int.{pos}
use rpc4grad.Prelude.Starts.{started}
use rpc4grad.MsgId.{str_eq}
use rpc4grad.Config.{
  root_node, stubs_node, stubs_under, first, Config, RpcStub, Xml, NodeName, log_level_node,
  name_node, ip_node, read_stub, read_stubs, load, read_node, read_str, load_log, load_server,
  load_stubs, stub_text, insert_stub, stub_addr, int_to_string, blank_config, default_config,
  find_stub,
}
use rpc4grad.Config.Stubs.{AllFiled, AllFound, load-AllFiled}
use rpc4grad.Log.Level.{debug, infolog, is_logged}
use rpc4grad.NetAddr.{
  check_valid, stoi, signed, skip_space, unsigned, digits_value, split_colon, decimal,
}
use rpc4grad.Rpc.FindAddr.{find_addr, FirstNamed, find_addr-named}

-- An element is its name, and the document none. Each name is found once below any element.
abbrev Element : Type 0
Element = Option NodeName

abbrev text_of : Element → Option (List ℕ)
text_of (some name_node) = some (b'h' ∷ [])
text_of (some log_level_node) = some (b'I' ∷ b'N' ∷ b'F' ∷ b'O' ∷ [])
text_of (some ip_node) = some (b'1' ∷ [])
text_of e = some (b'8' ∷ b'0' ∷ [])

abbrev file : Xml Element
file = record { elements = λ e name. some name ∷ []; text = text_of }

-- inet_addr takes every text, or none.
abbrev takes : List ℕ → Bool
takes s = true

abbrev refuses : List ℕ → Bool
refuses s = false

abbrev loaded : Config
loaded = elim (load file takes (some none)) [ started c ↦ c | _ ↦ default_config ]

loads : load file takes (some none) ≡ started loaded
unfolding load read_node read_str load_log load_server load_stubs read_stubs read_stub stub_text
    insert_stub stub_addr int_to_string blank_config default_config stoi signed skip_space unsigned
    digits_value check_valid split_colon decimal
loads = refl

stubs_test :
    find_stub (b'h' ∷ []) loaded.rpc_stubs
    ≡ some (record {
      name = b'h' ∷ [];
      addr = some (record { ip = b'1' ∷ []; port = 80 });
      timeout = pos 80;
    })
unfolding find_stub load read_node read_str load_log load_server load_stubs read_stubs read_stub
    stub_text insert_stub stub_addr int_to_string blank_config default_config stoi signed skip_space
    unsigned digits_value check_valid split_colon decimal str_eq
stubs_test = refl

load-AllFiled_example :
    (root : Element) × (read_node file root_node none ≡ started root)
    × (let ns = stubs_under file (first file root stubs_node) in
        AllFiled file takes ns loaded.rpc_stubs × AllFound file takes ns loaded.rpc_stubs)
load-AllFiled_example = load-AllFiled file takes none loaded loads

-- The stub where inet_addr refuses its ip.
abbrev stub : RpcStub
stub = record { name = b'h' ∷ []; addr = none; timeout = pos 80 }

stub_read : read_stub file refuses none ≡ ok stub
unfolding read_stub stub_text stub_addr int_to_string stoi signed skip_space unsigned digits_value
    check_valid split_colon decimal
stub_read = refl

abbrev refused : Config
refused = record loaded { rpc_stubs = (b'h' ∷ [], stub) ∷ [] }

stubs_read : read_stubs file refuses (none ∷ []) [] ≡ ok refused.rpc_stubs
unfolding read_stubs read_stub stub_text insert_stub stub_addr int_to_string stoi signed skip_space
    unsigned digits_value check_valid split_colon decimal
stubs_read = refl

not_address : check_valid refuses stub.name ≡ ok false
unfolding check_valid split_colon
not_address = refl

bad_address : check_valid refuses (b'1' ∷ b':' ∷ int_to_string (pos 80)) ≡ ok false
unfolding check_valid split_colon int_to_string decimal
bad_address = refl

eighty : stoi (b'8' ∷ b'0' ∷ []) ≡ ok (pos 80)
unfolding stoi signed skip_space unsigned digits_value
eighty = refl

only_element : FirstNamed file refuses debug [] none (b'h' ∷ []) (b'1' ∷ []) (b'8' ∷ b'0' ∷ [])
unfolding read_stubs stub_text find_stub
only_element = record {
  before = [];
  read = refl;
  new = refl;
  named = refl;
  ip_text = refl;
  port_text = refl;
}

find_addr-named_example :
    find_addr refuses debug (some refused) (b'h' ∷ [])
    ≡ (if is_logged infolog debug then fault null_pointer else ok none)
find_addr-named_example =
    find_addr-named file refuses debug [] [] none (b'h' ∷ []) (b'1' ∷ []) (b'8' ∷ b'0' ∷ [])
      (pos 80) false refused only_element stubs_read eighty bad_address not_address
