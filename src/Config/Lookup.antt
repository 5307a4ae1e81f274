-- ===== src/Config/Lookup.antt =====
-- src/whz_config.cpp: what the switch stores is what the other switch finds.
use work_horz.Base.{Bool, if◌then◌else◌, codes, ◌==◌, ◌≡◌, refl}
use work_horz.Config.Values.{Json, Any, literal}
use work_horz.Config.Parameter.{
  ConfigParameter, unknown, server_http_port, server_https_port, server_rootpath, server_logpath,
  connection_timeout_ms, server_domainname, server_ssl_certpath, connection_max_io_contexts,
  connection_use_iouring, threadpool_size, cpu_cores, requests_active_max, requests_queued_max,
  available_nodenames, whz_cli_path, database_path, database_name, database_user, database_password,
  database_port, database_host, database_engine, lua_script_path, lua_start_script_filename,
  lua_gc_stepsize, log_trace_l3, log_trace_l2, log_trace_l1, log_debug, log_info, log_warning,
  log_error, log_critical, log_backtrace, log_filename, log_rotation_days, log_rotation_mb,
  log_path, to_index,
}
use work_horz.Config.{Config, get_config_value}
use work_horz.Config.Store.{store, uint64_or, string_or_empty, bool_or_false, plain_bool_or_false}

-- The enumerators are the same.
abbrev pub same : ConfigParameter → ConfigParameter → Bool
unfolding to_index
same p q = to_index p == to_index q

module _ (json : Json) where
  -- What each parameter accepts, and the value that it gets otherwise: the documented table of the
  -- configuration file.
  unfoldable pub converted : ConfigParameter → json.Element → Any
  converted unknown value = literal (codes "Unknown")
  converted server_http_port value = uint64_or json 0 value
  converted server_https_port value = uint64_or json 0 value
  converted server_rootpath value = string_or_empty json value
  converted server_logpath value = string_or_empty json value
  converted connection_timeout_ms value = uint64_or json 5000 value
  converted server_domainname value = string_or_empty json value
  converted server_ssl_certpath value = string_or_empty json value
  converted connection_max_io_contexts value = uint64_or json 100 value
  converted connection_use_iouring value = bool_or_false json value
  converted threadpool_size value = uint64_or json 100 value
  converted cpu_cores value = uint64_or json 8 value
  converted requests_active_max value = uint64_or json 8 value
  converted requests_queued_max value = uint64_or json 100 value
  converted available_nodenames value = string_or_empty json value
  converted whz_cli_path value = string_or_empty json value
  converted database_path value = string_or_empty json value
  converted database_name value = string_or_empty json value
  converted database_user value = string_or_empty json value
  converted database_password value = string_or_empty json value
  converted database_port value = uint64_or json 0 value
  converted database_host value = string_or_empty json value
  converted database_engine value = string_or_empty json value
  converted lua_script_path value = string_or_empty json value
  converted lua_start_script_filename value = string_or_empty json value
  converted lua_gc_stepsize value = uint64_or json 1000000 value
  converted log_trace_l3 value = bool_or_false json value
  converted log_trace_l2 value = bool_or_false json value
  converted log_trace_l1 value = bool_or_false json value
  converted log_debug value = bool_or_false json value
  converted log_info value = plain_bool_or_false json value
  converted log_warning value = bool_or_false json value
  converted log_error value = bool_or_false json value
  converted log_critical value = bool_or_false json value
  converted log_backtrace value = bool_or_false json value
  converted log_filename value = string_or_empty json value
  converted log_rotation_days value = uint64_or json 1 value
  converted log_rotation_mb value = uint64_or json 50 value
  converted log_path value = string_or_empty json value

  -- Behind the storing of a value for a parameter, that parameter has the value, converted to
  -- its type, and every other one has the value that it had.
  pub get-store :
      (c : Config) (p q : ConfigParameter) (value : json.Element)
      → get_config_value (store json c p value) q
        ≡ (if same p q then converted q value else get_config_value c q)
  unfolding get_config_value store converted to_index
  get-store c unknown unknown value = refl
  get-store c server_http_port server_http_port value = refl
  get-store c server_https_port server_https_port value = refl
  get-store c server_rootpath server_rootpath value = refl
  get-store c server_logpath server_logpath value = refl
  get-store c connection_timeout_ms connection_timeout_ms value = refl
  get-store c server_domainname server_domainname value = refl
  get-store c server_ssl_certpath server_ssl_certpath value = refl
  get-store c connection_max_io_contexts connection_max_io_contexts value = refl
  get-store c connection_use_iouring connection_use_iouring value = refl
  get-store c threadpool_size threadpool_size value = refl
  get-store c cpu_cores cpu_cores value = refl
  get-store c requests_active_max requests_active_max value = refl
  get-store c requests_queued_max requests_queued_max value = refl
  get-store c available_nodenames available_nodenames value = refl
  get-store c whz_cli_path whz_cli_path value = refl
  get-store c database_path database_path value = refl
  get-store c database_name database_name value = refl
  get-store c database_user database_user value = refl
  get-store c database_password database_password value = refl
  get-store c database_port database_port value = refl
  get-store c database_host database_host value = refl
  get-store c database_engine database_engine value = refl
  get-store c lua_script_path lua_script_path value = refl
  get-store c lua_start_script_filename lua_start_script_filename value = refl
  get-store c lua_gc_stepsize lua_gc_stepsize value = refl
  get-store c log_trace_l3 log_trace_l3 value = refl
  get-store c log_trace_l2 log_trace_l2 value = refl
  get-store c log_trace_l1 log_trace_l1 value = refl
  get-store c log_debug log_debug value = refl
  get-store c log_info log_info value = refl
  get-store c log_warning log_warning value = refl
  get-store c log_error log_error value = refl
  get-store c log_critical log_critical value = refl
  get-store c log_backtrace log_backtrace value = refl
  get-store c log_filename log_filename value = refl
  get-store c log_rotation_days log_rotation_days value = refl
  get-store c log_rotation_mb log_rotation_mb value = refl
  get-store c log_path log_path value = refl
  get-store c _ _ value = refl

-- The flag is no parameter.
pub get-loaded :
    (c : Config) (q : ConfigParameter) (b : Bool)
    → get_config_value (record c { config_loaded = b }) q ≡ get_config_value c q
unfolding get_config_value
get-loaded c unknown b = refl
get-loaded c _ b = refl
