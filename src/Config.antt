-- ===== src/Config.antt =====
-- src/whz_config.hpp and .cpp: the configuration, one std::any for each parameter. The JSON library
-- is a parameter.
mod Tests
pub mod Values
pub mod Parameter
pub mod Store
pub mod Lookup
pub mod Read
pub mod Logging
pub mod Export
use work_horz.Base.{Bool, true, false, not, ◌&&◌, Bytes, List, [], ◌∷◌, if◌then◌else◌, codes, ℕ}
use work_horz.Config.Values.{
  Json, Any, empty, uint64_result, bool_result, string_view, int, boolean, literal,
}
use work_horz.Config.Parameter.{
  ConfigParameter, unknown, server_http_port, server_https_port, server_rootpath, server_logpath,
  connection_timeout_ms, server_domainname, server_ssl_certpath, connection_max_io_contexts,
  connection_use_iouring, threadpool_size, cpu_cores, requests_active_max, requests_queued_max,
  available_nodenames, whz_cli_path, database_path, database_name, database_user, database_password,
  database_port, database_host, database_engine, lua_script_path, lua_start_script_filename,
  lua_gc_stepsize, log_trace_l3, log_trace_l2, log_trace_l1, log_debug, log_info, log_warning,
  log_error, log_critical, log_backtrace, log_filename, log_rotation_days, log_rotation_mb,
  log_path, parameter_of_key,
}

pub record Config : Type 0 where
  pub config_loaded : Bool
  pub server_http_port : Any
  pub server_https_port : Any
  pub server_rootpath : Any
  pub server_logpath : Any
  pub connection_timeout_ms : Any
  pub server_domainname : Any
  pub server_ssl_certpath : Any
  pub connection_max_io_context : Any
  pub connection_use_iouring : Any
  pub threadpool_size : Any
  pub cpu_cores : Any
  pub requests_active_max : Any
  pub requests_queued_max : Any
  pub available_nodenames : Any
  pub whz_cli_path : Any
  pub database_path : Any
  pub database_name : Any
  pub database_user : Any
  pub database_password : Any
  pub database_port : Any
  pub database_host : Any
  pub database_engine : Any
  pub lua_script_path : Any
  pub lua_start_script_filename : Any
  pub lua_gc_stepsize : Any
  pub log_trace_l3 : Any
  pub log_trace_l2 : Any
  pub log_trace_l1 : Any
  pub log_debug : Any
  pub log_info : Any
  pub log_warning : Any
  pub log_error : Any
  pub log_critical : Any
  pub log_backtrace : Any
  pub log_filename : Any
  pub log_rotation_days : Any
  pub log_rotation_mb : Any
  pub log_path : Any

-- `Config() = default`: no std::any holds a value.
pub initial : Config
initial = record {
  config_loaded = false;
  server_http_port = empty;
  server_https_port = empty;
  server_rootpath = empty;
  server_logpath = empty;
  connection_timeout_ms = empty;
  server_domainname = empty;
  server_ssl_certpath = empty;
  connection_max_io_context = empty;
  connection_use_iouring = empty;
  threadpool_size = empty;
  cpu_cores = empty;
  requests_active_max = empty;
  requests_queued_max = empty;
  available_nodenames = empty;
  whz_cli_path = empty;
  database_path = empty;
  database_name = empty;
  database_user = empty;
  database_password = empty;
  database_port = empty;
  database_host = empty;
  database_engine = empty;
  lua_script_path = empty;
  lua_start_script_filename = empty;
  lua_gc_stepsize = empty;
  log_trace_l3 = empty;
  log_trace_l2 = empty;
  log_trace_l1 = empty;
  log_debug = empty;
  log_info = empty;
  log_warning = empty;
  log_error = empty;
  log_critical = empty;
  log_backtrace = empty;
  log_filename = empty;
  log_rotation_days = empty;
  log_rotation_mb = empty;
  log_path = empty;
}

pub get_config_value : Config → ConfigParameter → Any
get_config_value c server_http_port = c.server_http_port
get_config_value c server_https_port = c.server_https_port
get_config_value c server_rootpath = c.server_rootpath
get_config_value c server_logpath = c.server_logpath
get_config_value c connection_timeout_ms = c.connection_timeout_ms
get_config_value c server_domainname = c.server_domainname
get_config_value c server_ssl_certpath = c.server_ssl_certpath
get_config_value c connection_max_io_contexts = c.connection_max_io_context
get_config_value c connection_use_iouring = c.connection_use_iouring
get_config_value c threadpool_size = c.threadpool_size
get_config_value c cpu_cores = c.cpu_cores
get_config_value c requests_active_max = c.requests_active_max
get_config_value c requests_queued_max = c.requests_queued_max
get_config_value c available_nodenames = c.available_nodenames
get_config_value c whz_cli_path = c.whz_cli_path
get_config_value c database_path = c.database_path
get_config_value c database_name = c.database_name
get_config_value c database_user = c.database_user
get_config_value c database_password = c.database_password
get_config_value c database_port = c.database_port
get_config_value c database_host = c.database_host
get_config_value c database_engine = c.database_engine
get_config_value c lua_script_path = c.lua_script_path
get_config_value c lua_start_script_filename = c.lua_start_script_filename
get_config_value c lua_gc_stepsize = c.lua_gc_stepsize
get_config_value c log_trace_l3 = c.log_trace_l3
get_config_value c log_trace_l2 = c.log_trace_l2
get_config_value c log_trace_l1 = c.log_trace_l1
get_config_value c log_debug = c.log_debug
get_config_value c log_info = c.log_info
get_config_value c log_warning = c.log_warning
get_config_value c log_error = c.log_error
get_config_value c log_critical = c.log_critical
get_config_value c log_backtrace = c.log_backtrace
get_config_value c log_filename = c.log_filename
get_config_value c log_rotation_days = c.log_rotation_days
get_config_value c log_rotation_mb = c.log_rotation_mb
get_config_value c log_path = c.log_path
get_config_value c unknown = literal (codes "Unknown")
