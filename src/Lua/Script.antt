-- ===== src/Lua/Script.antt =====
-- src/whz_LUA_core.cpp: which script is run.
use work_horz.Base.{
  Bool, true, false, List, [], ◌∷◌, ◌++◌, some, ◌≡◌, ◌≢◌, refl, ◌⊎◌, inl, inr, Bytes, bytes_eq,
  codes, is_empty, append_assoc, Bool-cases, Option-cases, arith,
}
use work_horz.Lua.{
  ScriptFiles, LuaCall, LuaCore, lua_call, incremental_gc, open_libraries, run_text,
  collect_garbage, libraries, init_path, init_string, run_startup_script,
}

-- The calls of a run of a text: the garbage is collected last.
abbrev pub calls_of : Bytes → List LuaCall
calls_of text = incremental_gc ∷ open_libraries libraries ∷ run_text text ∷ collect_garbage ∷ []

-- The file is a script that can be read.
pub record IsScript (files : ScriptFiles) (path text : Bytes) : Type 0 where
  pub there : files.exists path ≡ true
  pub is_lua : bytes_eq (files.extension path) (codes ".lua") ≡ true
  pub content : files.read path ≡ some text

is_empty-false : (s : Bytes) → s ≢ [] → is_empty s ≡ false
is_empty-false [] ne = absurd (ne refl)
is_empty-false (c ∷ s) ne = refl

run_startup_script_lem :
    (script : Bytes → Bool) (lua : LuaCore)
    → lua.startup_script_path ≢ []
    → run_startup_script script lua ≡ (
      script lua.startup_script_content,
      record lua { calls = lua.calls ++ calls_of lua.startup_script_content },
    )
unfolding run_startup_script lua_call
run_startup_script_lem script lua ne =
    rw (is_empty-false lua.startup_script_path ne, run_startup_script) (simp append_assoc)

init_string-cases :
    (files : ScriptFiles) (path : Bytes) (lua : LuaCore)
    → ((text : Bytes) × IsScript files path text
        × (init_string files path lua
            ≡ (true, record lua { startup_script_path = path; startup_script_content = text })))
      ⊎ (init_string files path lua ≡ (false, record lua { startup_script_path = path }))
unfolding init_string init_path
init_string-cases files path lua = elim (Bool-cases (files.exists path)) [
  | inr e ↦ inr (ground (arith, e))
  | inl e ↦ elim (Bool-cases (bytes_eq (files.extension path) (codes ".lua"))) [
    | inr f ↦ inr (ground (arith, e, f))
    | inl f ↦ elim (Option-cases (files.read path)) [
      | inl g ↦ inr (ground (arith, e, f, g))
      | inr (text, g) ↦
          inl (text, record { there = e; is_lua = f; content = g }, ground (arith, e, f, g))
    ]
  ]
]

-- A call of `init_LUA` with a path that is not empty, and then of `run_LUA_startup_script`: where the first
-- one returns true the file exists, is a `.lua` script and can be read, and the second one
-- runs its text; where it returns false, the second one runs the text that was held before. Either
-- way it returns what the run of the text does, and the garbage is collected last.
pub init_string-run_startup_script :
    (files : ScriptFiles) (script : Bytes → Bool) (path : Bytes) (lua : LuaCore)
    → path ≢ []
    → (lua' : LuaCore) × (((text : Bytes) × IsScript files path text
          × (init_string files path lua ≡ (true, lua'))
          × (run_startup_script script lua'
              ≡ (script text, record lua' { calls = lua.calls ++ calls_of text })))
        ⊎ ((init_string files path lua ≡ (false, lua'))
            × (run_startup_script script lua' ≡ (
              script lua.startup_script_content,
              record lua' { calls = lua.calls ++ calls_of lua.startup_script_content },
            ))))
init_string-run_startup_script files script path lua ne = elim (init_string-cases files path lua) [
  | inl (text, is, e) ↦ (_, inl (text, is, e, run_startup_script_lem script _ ne))
  | inr e ↦ (_, inr (e, run_startup_script_lem script _ ne))
]
