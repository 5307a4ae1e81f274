-- ===== src/Lua/Settings.antt =====
-- src/whz_LUA_core.cpp: what the Lua core makes of the configuration.
use work_horz.Base.{ℕ, Bool, true, not, ◌&&◌, List, [], some, ◌≡◌, ◌≢◌, if◌then◌else◌, Bytes, arith}
use work_horz.Config.{Config}
use work_horz.Config.Store.{string_or_empty, uint64_or}
use work_horz.Config.Lookup.{converted}
use work_horz.Config.Parameter.{lua_start_script_filename, lua_gc_stepsize}
use work_horz.Config.Read.{Document, object, returned, read_config, setting, read_config-object}
use work_horz.Config.Values.{Json, cast_string, cast_int}
use work_horz.Lua.{
  ScriptFiles, LuaCore, threw, has_value, get_startup_script_path, init, step_by, cast_failed,
  step_gc,
}

module _ (json : Json) where
  -- Where the path is not empty and its document is an object with a `LUA_START_SCRIPT_FILENAME` field,
  -- reading it gives true, and `init_LUA` then throws bad_any_cast, whatever the field's value.
  init-threw :
      (exists : Bytes → Bool) (load : Bytes → Document json.Element) (c : Config) (path : Bytes)
      (fields : List (Bytes × json.Element)) (value : json.Element) (files : ScriptFiles)
      (lua : LuaCore)
      → path ≢ []
      → load path ≡ object fields
      → setting json lua_start_script_filename fields ≡ some value
      → (d : Config) × (read_config json exists load c path ≡ returned true d)
        × (init files d lua ≡ threw)
  unfolding init get_startup_script_path converted string_or_empty cast_string has_value
  init-threw exists load c path fields value files lua ne e last =
      let (d, r, loaded, values) = read_config-object json exists load c path fields ne e in
      (
        d,
        r,
        rw (loaded, values lua_start_script_filename, last, init, get_startup_script_path)
            (ground arith),
      )

  -- Where the path is not empty and its document is an object with a `LUA_GC_STEPSIZE` field, reading it
  -- gives true, and `step_LUA_gc` then throws bad_any_cast if the last such field is an unsigned
  -- number, and steps by 1000000 if it is not.
  step_gc-configured :
      (exists : Bytes → Bool) (load : Bytes → Document json.Element) (c : Config) (path : Bytes)
      (fields : List (Bytes × json.Element)) (value : json.Element) (last_step : ℕ → Bool)
      (lua : LuaCore)
      → path ≢ []
      → load path ≡ object fields
      → setting json lua_gc_stepsize fields ≡ some value
      → (d : Config) × (read_config json exists load c path ≡ returned true d)
        × (step_gc last_step d lua ≡ (
            if not (json.is_null value) && json.is_uint64 value
            then cast_failed
            else step_by last_step 1000000 lua))
  unfolding step_gc converted uint64_or cast_int has_value
  step_gc-configured exists load c path fields value last_step lua ne e last =
      let (d, r, loaded, values) = read_config-object json exists load c path fields ne e in
      (d, r, rw (values lua_gc_stepsize, last, step_gc) (ground arith))
