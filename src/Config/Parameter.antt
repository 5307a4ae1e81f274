-- ===== src/Config/Parameter.antt =====
-- src/whz_config.hpp: the parameters, and src/whz_config.cpp: their keys.
pub mod Keys
use work_horz.Base.{ℕ, List, [], ◌∷◌, Bytes, codes, bytes_eq, if◌then◌else◌}

pub data ConfigParameter : Type 0 where
  unknown server_http_port server_https_port server_rootpath server_logpath : ConfigParameter
  connection_timeout_ms server_domainname server_ssl_certpath : ConfigParameter
  connection_max_io_contexts connection_use_iouring threadpool_size : ConfigParameter
  cpu_cores requests_active_max requests_queued_max available_nodenames : ConfigParameter
  whz_cli_path database_path database_name database_user database_password : ConfigParameter
  database_port database_host database_engine lua_script_path : ConfigParameter
  lua_start_script_filename lua_gc_stepsize log_trace_l3 log_trace_l2 : ConfigParameter
  log_trace_l1 log_debug log_info log_warning log_error log_critical : ConfigParameter
  log_backtrace log_filename log_rotation_days log_rotation_mb log_path : ConfigParameter

-- The enumerator's number.
unfoldable pub to_index : ConfigParameter → ℕ
to_index unknown = 0
to_index server_http_port = 1
to_index server_https_port = 2
to_index server_rootpath = 3
to_index server_logpath = 4
to_index connection_timeout_ms = 5
to_index server_domainname = 6
to_index server_ssl_certpath = 7
to_index connection_max_io_contexts = 8
to_index connection_use_iouring = 9
to_index threadpool_size = 10
to_index cpu_cores = 11
to_index requests_active_max = 12
to_index requests_queued_max = 13
to_index available_nodenames = 14
to_index whz_cli_path = 15
to_index database_path = 16
to_index database_name = 17
to_index database_user = 18
to_index database_password = 19
to_index database_port = 20
to_index database_host = 21
to_index database_engine = 22
to_index lua_script_path = 23
to_index lua_start_script_filename = 24
to_index lua_gc_stepsize = 25
to_index log_trace_l3 = 26
to_index log_trace_l2 = 27
to_index log_trace_l1 = 28
to_index log_debug = 29
to_index log_info = 30
to_index log_warning = 31
to_index log_error = 32
to_index log_critical = 33
to_index log_backtrace = 34
to_index log_filename = 35
to_index log_rotation_days = 36
to_index log_rotation_mb = 37
to_index log_path = 38

-- The branches of `if (key == …) paramEnum = …; else if …`, in their order.
abbrev pub keys : List (Bytes × ConfigParameter)
keys =
    (codes "SERVER_HTTP_PORT", server_http_port)
    ∷ (codes "SERVER_HTTPS_PORT", server_https_port)
    ∷ (codes "SERVER_ROOTPATH", server_rootpath)
    ∷ (codes "SERVER_LOGPATH", server_logpath)
    ∷ (codes "CONNECTION_TIMEOUT_MS", connection_timeout_ms)
    ∷ (codes "SERVER_DOMAINNAME", server_domainname)
    ∷ (codes "SERVER_SSL_CERTPATH", server_ssl_certpath)
    ∷ (codes "CONNECTION_MAX_IO_CONTEXTS", connection_max_io_contexts)
    ∷ (codes "CONNECTION_USE_IOURING", connection_use_iouring)
    ∷ (codes "THREADPOOL_SIZE", threadpool_size)
    ∷ (codes "CPU_CORES", cpu_cores)
    ∷ (codes "REQUESTS_ACTIVE_MAX", requests_active_max)
    ∷ (codes "REQUESTS_QUEUED_MAX", requests_queued_max)
    ∷ (codes "AVAILABLE_NODENAMES", available_nodenames)
    ∷ (codes "WHZ_CLI_PATH", whz_cli_path)
    ∷ (codes "DATABASE_PATH", database_path)
    ∷ (codes "DATABASE_NAME", database_name)
    ∷ (codes "DATABASE_USER", database_user)
    ∷ (codes "DATABASE_PASSWORD", database_password)
    ∷ (codes "DATABASE_PORT", database_port)
    ∷ (codes "DATABASE_HOST", database_host)
    ∷ (codes "DATABASE_ENGINE", database_engine)
    ∷ (codes "LUA_SCRIPT_PATH", lua_script_path)
    ∷ (codes "LUA_START_SCRIPT_FILENAME", lua_start_script_filename)
    ∷ (codes "LUA_GC_STEPSIZE", lua_gc_stepsize)
    ∷ (codes "LOG_TRACE_L3", log_trace_l3)
    ∷ (codes "LOG_TRACE_L2", log_trace_l2)
    ∷ (codes "LOG_TRACE_L1", log_trace_l1)
    ∷ (codes "LOG_DEBUG", log_debug)
    ∷ (codes "LOG_INFO", log_info)
    ∷ (codes "LOG_WARNING", log_warning)
    ∷ (codes "LOG_ERROR", log_error)
    ∷ (codes "LOG_CRITICAL", log_critical)
    ∷ (codes "LOG_BACKTRACE", log_backtrace)
    ∷ (codes "LOG_FILENAME", log_filename)
    ∷ (codes "LOG_ROTATION_DAYS", log_rotation_days)
    ∷ (codes "LOG_ROTATION_MB", log_rotation_mb)
    ∷ (codes "LOG_PATH", log_path)
    ∷ []

unfoldable pub first_match : List (Bytes × ConfigParameter) → Bytes → ConfigParameter
first_match [] key = unknown
first_match ((name, p) ∷ rest) key = if bytes_eq key name then p else first_match rest key

unfoldable pub parameter_of_key : Bytes → ConfigParameter
parameter_of_key = first_match keys
