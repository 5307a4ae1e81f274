-- ===== src/Lua.antt =====
-- src/whz_LUA_core.cpp and .hpp: `whz_LUA_core`. A path is its text. The Lua library is a parameter, whose
-- calls are kept.
pub mod Settings
pub mod Script
mod Tests
use work_horz.Base.{
  ℕ, List, [], ◌∷◌, ◌++◌, Bool, true, false, not, Option, none, some, if◌then◌else◌, Bytes, codes,
  bytes_eq, is_empty,
}
use work_horz.Config.{Config, get_config_value}
use work_horz.Config.Parameter.{lua_start_script_filename, lua_gc_stepsize}
use work_horz.Config.Values.{Any, empty, cast_string, cast_int}

-- The file system: whether a path exists, its extension, and the content of the file that can be opened.
pub record ScriptFiles : Type 0 where
  pub exists : Bytes → Bool
  pub extension : Bytes → Bytes
  pub read : Bytes → Option Bytes

pub data Lib : Type 0 where
  lib_base lib_package lib_coroutine lib_string lib_os lib_table lib_debug lib_bit32 lib_io lib_ffi
        lib_jit :
      Lib

-- The calls of the Lua state.
pub data LuaCall : Type 0 where
  incremental_gc collect_garbage : LuaCall
  open_libraries : List Lib → LuaCall
  run_text : Bytes → LuaCall
  step_collector : ℕ → LuaCall

pub record LuaCore : Type 0 where
  pub startup_script_path : Bytes
  pub startup_script_content : Bytes
  pub calls : List LuaCall

-- `init_LUA` on a path, with the value that it returns.
unfoldable pub init_path : ScriptFiles → Bytes → LuaCore → Bool × LuaCore
init_path files path lua =
    if not (files.exists path)
    then (false, lua)
    else if not (bytes_eq (files.extension path) (codes ".lua"))
    then (false, lua)
    else elim (files.read path) [
      | none ↦ (false, record lua { startup_script_path = path })
      | some text ↦ (true, record lua { startup_script_path = path; startup_script_content = text })
    ]

-- `init_LUA` on a string.
unfoldable pub init_string : ScriptFiles → Bytes → LuaCore → Bool × LuaCore
unfolding init_path
init_string files path lua = init_path files path (record lua { startup_script_path = path })

-- What a call comes to that casts a std::any: `threw` is bad_any_cast.
pub data LuaResult : Type 0 where
  returned : Bool → LuaCore → LuaResult
  threw : LuaResult

-- `has_value()`.
pub has_value : Any → Bool
has_value empty = false
has_value _ = true

pub get_startup_script_path : Config → LuaCore → LuaResult
get_startup_script_path c lua =
    let value = get_config_value c lua_start_script_filename in
    if c.config_loaded
    then (if has_value value
        then elim (cast_string value) [
          | none ↦ threw
          | some path ↦ returned true (record lua { startup_script_path = path })
        ]
        else returned false lua)
    else returned false lua

-- `init_LUA` without arguments; what `get_LUA_startup_script_path` returns is not looked at.
pub init : ScriptFiles → Config → LuaCore → LuaResult
init files c lua = elim (get_startup_script_path c lua) [
  | threw ↦ threw
  | returned found lua' ↦
      returned (init_path files lua'.startup_script_path lua').0
        (init_path files lua'.startup_script_path lua').1
]

unfoldable pub lua_call : LuaCall → LuaCore → LuaCore
lua_call c lua = record lua { calls = lua.calls ++ c ∷ [] }

-- `step_LUA_gc`, with whether the step was the last one of a cycle, by what the collector says.
pub data GcStep : Type 0 where
  stepped : Bool → LuaCore → GcStep
  cast_failed : GcStep

unfoldable pub step_by : (ℕ → Bool) → ℕ → LuaCore → GcStep
unfolding lua_call
step_by last_step size lua = stepped (last_step size) (lua_call (step_collector size) lua)

pub step_gc : (ℕ → Bool) → Config → LuaCore → GcStep
unfolding step_by
step_gc last_step c lua =
    let value = get_config_value c lua_gc_stepsize in
    if has_value value
    then elim (cast_int value) [ none ↦ cast_failed | some size ↦ step_by last_step size lua ]
    else step_by last_step 100 lua

abbrev pub libraries : List Lib
libraries =
    lib_base ∷ lib_package ∷ lib_coroutine ∷ lib_string ∷ lib_os ∷ lib_table ∷ lib_debug ∷ lib_bit32
    ∷ lib_io ∷ lib_ffi ∷ lib_jit ∷ []

-- `run_LUA_startup_script`; `script` says whether the library runs the text with no exception.
unfoldable pub run_startup_script : (Bytes → Bool) → LuaCore → Bool × LuaCore
unfolding lua_call
run_startup_script script lua =
    let opened = lua_call (open_libraries libraries) (lua_call incremental_gc lua) in
    if is_empty lua.startup_script_path then (false, lua) else (
      script lua.startup_script_content,
      lua_call collect_garbage (lua_call (run_text lua.startup_script_content) opened),
    )
