-- ===== src/Config/Store.antt =====
-- src/whz_config.cpp: what `read_config` stores for each parameter.
use work_horz.Base.{false, not, ◌&&◌, [], if◌then◌else◌, ℕ}
use work_horz.Config.Values.{
  Json, Any, uint64_result, bool_result, string_view, int, boolean, literal,
}
use work_horz.Config.Parameter.{
  ConfigParameter, server_http_port, server_https_port, server_rootpath, server_logpath,
  connection_timeout_ms, server_domainname, server_ssl_certpath, connection_max_io_contexts,
  connection_use_iouring, threadpool_size, cpu_cores, requests_active_max, requests_queued_max,
  available_nodenames, whz_cli_path, database_path, database_name, database_user, database_password,
  database_port, database_host, database_engine, lua_script_path, lua_start_script_filename,
  lua_gc_stepsize, log_trace_l3, log_trace_l2, log_trace_l1, log_debug, log_info, log_warning,
  log_error, log_critical, log_backtrace, log_filename, log_rotation_days, log_rotation_mb,
  log_path,
}
use work_horz.Config.{Config}

module _ (json : Json) where
  open json use {Element, is_null, is_uint64, is_string, is_bool, get_uint64, get_bool}

  -- `if (!value.is_null() && value.is_uint64()) x = value.get_uint64(); else x = other;`
  unfoldable pub uint64_or : ℕ → Element → Any
  uint64_or other value =
      if not (is_null value) && is_uint64 value then uint64_result (get_uint64 value) else int other

  -- The same with `value.get_string().value()`, a view, and an empty literal.
  unfoldable pub string_or_empty : Element → Any
  string_or_empty value = if not (is_null value) && is_string value then string_view else literal []

  -- The same with `value.get_bool()`.
  unfoldable pub bool_or_false : Element → Any
  bool_or_false value =
      if not (is_null value) && is_bool value then bool_result (get_bool value) else boolean false

  -- The same with `bool(value)`, which only `LOG_INFO` has.
  unfoldable pub plain_bool_or_false : Element → Any
  plain_bool_or_false value =
      if not (is_null value) && is_bool value then boolean (get_bool value) else boolean false

  -- The cases of `switch (paramEnum)` for the server, its connections and the command line tool.
  unfoldable pub store_server : Config → ConfigParameter → Element → Config
  store_server c server_http_port value = record c { server_http_port = uint64_or 0 value }
  store_server c server_https_port value = record c { server_https_port = uint64_or 0 value }
  store_server c server_rootpath value = record c { server_rootpath = string_or_empty value }
  store_server c server_logpath value = record c { server_logpath = string_or_empty value }
  store_server c connection_timeout_ms value = record c {
    connection_timeout_ms = uint64_or 5000 value;
  }
  store_server c server_domainname value = record c { server_domainname = string_or_empty value }
  store_server c server_ssl_certpath value = record c {
    server_ssl_certpath = string_or_empty value;
  }
  store_server c connection_max_io_contexts value = record c {
    connection_max_io_context = uint64_or 100 value;
  }
  store_server c connection_use_iouring value = record c {
    connection_use_iouring = bool_or_false value;
  }
  store_server c threadpool_size value = record c { threadpool_size = uint64_or 100 value }
  store_server c cpu_cores value = record c { cpu_cores = uint64_or 8 value }
  store_server c requests_active_max value = record c { requests_active_max = uint64_or 8 value }
  store_server c requests_queued_max value = record c { requests_queued_max = uint64_or 100 value }
  store_server c available_nodenames value = record c {
    available_nodenames = string_or_empty value;
  }
  store_server c whz_cli_path value = record c { whz_cli_path = string_or_empty value }
  store_server c _ value = c

  -- Those for the database and for Lua.
  unfoldable pub store_storage : Config → ConfigParameter → Element → Config
  store_storage c database_path value = record c { database_path = string_or_empty value }
  store_storage c database_name value = record c { database_name = string_or_empty value }
  store_storage c database_user value = record c { database_user = string_or_empty value }
  store_storage c database_password value = record c { database_password = string_or_empty value }
  store_storage c database_port value = record c { database_port = uint64_or 0 value }
  store_storage c database_host value = record c { database_host = string_or_empty value }
  store_storage c database_engine value = record c { database_engine = string_or_empty value }
  store_storage c lua_script_path value = record c { lua_script_path = string_or_empty value }
  store_storage c lua_start_script_filename value = record c {
    lua_start_script_filename = string_or_empty value;
  }
  store_storage c lua_gc_stepsize value = record c { lua_gc_stepsize = uint64_or 1000000 value }
  store_storage c _ value = c

  -- Those for the log.
  unfoldable pub store_log : Config → ConfigParameter → Element → Config
  store_log c log_trace_l3 value = record c { log_trace_l3 = bool_or_false value }
  store_log c log_trace_l2 value = record c { log_trace_l2 = bool_or_false value }
  store_log c log_trace_l1 value = record c { log_trace_l1 = bool_or_false value }
  store_log c log_debug value = record c { log_debug = bool_or_false value }
  store_log c log_info value = record c { log_info = plain_bool_or_false value }
  store_log c log_warning value = record c { log_warning = bool_or_false value }
  store_log c log_error value = record c { log_error = bool_or_false value }
  store_log c log_critical value = record c { log_critical = bool_or_false value }
  store_log c log_backtrace value = record c { log_backtrace = bool_or_false value }
  store_log c log_filename value = record c { log_filename = string_or_empty value }
  store_log c log_rotation_days value = record c { log_rotation_days = uint64_or 1 value }
  store_log c log_rotation_mb value = record c { log_rotation_mb = uint64_or 50 value }
  store_log c log_path value = record c { log_path = string_or_empty value }
  store_log c _ value = c

  -- `switch (paramEnum)`: each parameter has one case.
  unfoldable pub store : Config → ConfigParameter → Element → Config
  unfolding store_server store_storage store_log
  store c p value = store_log (store_storage (store_server c p value) p value) p value
