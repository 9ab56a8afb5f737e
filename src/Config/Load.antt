-- ===== src/Config/Load.antt =====
-- A configuration that was written to a file is read back from it.
use my_tiny_rpc.Base.{◌^◌, ◌<◌, ◌≡◌, Bytes, some, codes}
use my_tiny_rpc.Base.Decimal.{to_string}
use my_tiny_rpc.Config.{TiXml, Config, LogTexts, read_str_from_xml_node, open_nodes}

-- The file has both nodes, and in them the members of `c`, the numbers in decimal.
pub record Written (xml : TiXml) (file : Bytes) (c : Config) : Type 0 where
  pub log : xml.Element
  pub server : xml.Element
  pub nodes_eq : open_nodes xml file ≡ some (log, server)
  pub level_eq : read_str_from_xml_node xml (codes "log_level") log ≡ some c.log_level
  pub name_eq : read_str_from_xml_node xml (codes "log_file_name") log ≡ some c.log_file_name
  pub path_eq : read_str_from_xml_node xml (codes "log_file_path") log ≡ some c.log_file_path
  pub size_eq :
      read_str_from_xml_node xml (codes "log_max_file_size") log
      ≡ some (to_string c.log_max_file_size)
  pub interval_eq :
      read_str_from_xml_node xml (codes "async_log_interval") log
      ≡ some (to_string c.async_log_interval)
  pub port_eq : read_str_from_xml_node xml (codes "port") server ≡ some (to_string c.port)
  pub threads_eq :
      read_str_from_xml_node xml (codes "io_threads") server ≡ some (to_string c.io_threads)
  pub size_fits : c.log_max_file_size < 2 ^ 32
  pub interval_fits : c.async_log_interval < 2 ^ 32
  pub port_fits : c.port < 2 ^ 32
  pub threads_fit : c.io_threads < 2 ^ 32

module _ (xml : TiXml) (file : Bytes) (c : Config) (w : Written xml file c) where
  abbrev texts : LogTexts
  texts = record {
    level_text = c.log_level;
    name_text = c.log_file_name;
    path_text = c.log_file_path;
    size_text = to_string c.log_max_file_size;
    interval_text = to_string c.async_log_interval;
  }
