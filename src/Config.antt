-- ===== src/Config.antt =====
-- tinyrpc/common/config.{h,cc}: the configuration, from an XML file.
-- TinyXML is an argument, the record `TiXml`: it is not part of the repository. Where a node or a
-- text is missing the program ends, which is `none`; an `int` is its bit pattern.
pub mod Load
pub mod Tests
use my_tiny_rpc.Base.{ℕ, Bytes, Bool, true, false, Option, none, some, [], codes}
use my_tiny_rpc.Base.Outcome.{Outcome, done, ◌>>=◌}
use my_tiny_rpc.Base.Decimal.{atoi}

-- What the constructor calls of TinyXML: `LoadFile`, `FirstChildElement` and `GetText`.
pub record TiXml : Type 1 where
  pub Element : Type 0
  pub load_file : Bytes → Option Element
  pub first_child_element : Element → Bytes → Option Element
  pub get_text : Element → Option Bytes

pub record Config : Type 0 where
  pub log_level : Bytes
  pub log_file_name : Bytes
  pub log_file_path : Bytes
  pub log_max_file_size : ℕ
  pub async_log_interval : ℕ
  pub port : ℕ
  pub io_threads : ℕ

-- The constructor without a file.
abbrev pub default_config : Config
default_config = record {
  log_level = codes "DEBUG";
  log_file_name = [];
  log_file_path = [];
  log_max_file_size = 0;
  async_log_interval = 0;
  port = 0;
  io_threads = 0;
}

-- What the macros do where the node is there.
infixl 5 ◌>>?◌
abbrev pub ◌>>?◌ {ℓ κ} : {A : Type ℓ} {B : Type κ} → Option A → (A → Option B) → Option B
none >>? f = none
some a >>? f = f a

-- The five texts of the node `log`.
pub record LogTexts : Type 0 where
  pub level_text : Bytes
  pub name_text : Bytes
  pub path_text : Bytes
  pub size_text : Bytes
  pub interval_text : Bytes

module _ (xml : TiXml) where
  -- READ_XML_NODE
  unfoldable pub read_xml_node : Bytes → xml.Element → Option xml.Element
  read_xml_node name parent = xml.first_child_element parent name

  -- READ_STR_FROM_XML_NODE
  unfoldable pub read_str_from_xml_node : Bytes → xml.Element → Option Bytes
  read_str_from_xml_node name parent =
      xml.first_child_element parent name >>? λ node. xml.get_text node

  unfoldable pub open_nodes : Bytes → Option (xml.Element × xml.Element)
  open_nodes file = xml.load_file file >>? λ document.
      read_xml_node (codes "root") document >>? λ root. read_xml_node (codes "log") root >>? λ log.
      read_xml_node (codes "server") root >>? λ server. some (log, server)

  unfoldable pub read_log_texts : xml.Element → Option LogTexts
  read_log_texts log = read_str_from_xml_node (codes "log_level") log >>? λ level.
      read_str_from_xml_node (codes "log_file_name") log >>? λ name.
      read_str_from_xml_node (codes "log_file_path") log >>? λ path.
      read_str_from_xml_node (codes "log_max_file_size") log >>? λ size.
      read_str_from_xml_node (codes "async_log_interval") log >>? λ interval. some (record {
        level_text = level;
        name_text = name;
        path_text = path;
        size_text = size;
        interval_text = interval;
      })

  unfoldable pub read_server_texts : xml.Element → Option (Bytes × Bytes)
  read_server_texts server = read_str_from_xml_node (codes "port") server >>? λ port.
      read_str_from_xml_node (codes "io_threads") server >>? λ io_threads. some (port, io_threads)

  -- The members that the node `log` sets.
  unfoldable pub config_of_log : LogTexts → Outcome Config
  config_of_log t = atoi t.size_text >>= λ size. atoi t.interval_text >>= λ interval.
      done (record default_config {
        log_level = t.level_text;
        log_file_name = t.name_text;
        log_file_path = t.path_text;
        log_max_file_size = size;
        async_log_interval = interval;
      })

  abbrev pub with_server : Config → Option (Bytes × Bytes) → Outcome (Option Config)
  with_server c none = done none
  with_server c (some (port_text, threads_text)) = atoi port_text >>= λ port.
      atoi threads_text >>= λ io_threads.
      done (some (record c { port = port; io_threads = io_threads }))

  abbrev pub with_log : xml.Element → Option LogTexts → Outcome (Option Config)
  with_log server none = done none
  with_log server (some texts) =
      config_of_log texts >>= λ c. with_server c (read_server_texts server)

  abbrev pub with_nodes : Option (xml.Element × xml.Element) → Outcome (Option Config)
  with_nodes none = done none
  with_nodes (some (log, server)) = with_log server (read_log_texts log)

  -- The constructor from a file.
  unfoldable pub load_config : Bytes → Outcome (Option Config)
  load_config xml_file = with_nodes (open_nodes xml_file)

  -- `SetGlobalConfig`, with what the global pointer holds.
  unfoldable pub set_global_config : Option Config → Option Bytes → Outcome (Option Config)
  set_global_config (some config) xml_file = done (some config)
  set_global_config none none = done (some default_config)
  set_global_config none (some xml_file) = load_config xml_file
