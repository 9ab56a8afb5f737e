-- ===== src/Config/Tests.antt =====
-- A small document, and what is read of it.
use my_tiny_rpc.Base.{◌≡◌, refl, Bytes, none, some, [], codes, if◌then◌else◌, bytes_eq}
use my_tiny_rpc.Base.Outcome.{done}
use my_tiny_rpc.Config.{TiXml, Config, default_config, set_global_config}

unfoldable text_of : Bytes → Bytes
unfolding bytes_eq
text_of name =
    if bytes_eq name (codes "log_level")
    then codes "INFO"
    else if bytes_eq name (codes "port")
    then codes "12345"
    else codes "4"

-- A node is its name, and every node has every child.
abbrev xml : TiXml
xml = record {
  Element = Bytes;
  load_file = λ file. some [];
  first_child_element = λ parent name. some name;
  get_text = λ name. some (text_of name);
}

abbrev config : Config
config = record {
  log_level = codes "INFO";
  log_file_name = codes "4";
  log_file_path = codes "4";
  log_max_file_size = 4;
  async_log_interval = 4;
  port = 12345;
  io_threads = 4;
}

-- Only the first call sets the configuration.
set_once : set_global_config xml (some config) (some (codes "b.xml")) ≡ done (some config)
unfolding set_global_config
set_once = refl

without_file : set_global_config xml none none ≡ done (some default_config)
unfolding set_global_config
without_file = refl
