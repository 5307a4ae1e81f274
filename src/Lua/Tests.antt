-- ===== src/Lua/Tests.antt =====
-- The Lua core on a configuration with a script and a step size.
use work_horz.Base.{
  ◌++◌, ◌⊎◌, ℕ, Bool, true, false, not, List, [], ◌∷◌, some, ◌≡◌, refl, Bytes, codes, bytes_eq,
}
use work_horz.Config.Parameter.{lua_start_script_filename, parameter_of_key, first_match, to_index}
use work_horz.Config.Read.{setting}
use work_horz.Config.Values.{Json}
use work_horz.Lua.{ScriptFiles, LuaCore, init_string, run_startup_script}
use work_horz.Lua.Script.{IsScript, calls_of, init_string-run_startup_script}

data Element : Type 0 where
  number : ℕ → Element
  text : Bytes → Element

is_number : Element → Bool
is_number (number n) = true
is_number (text s) = false

to_number : Element → ℕ
to_number (number n) = n
to_number (text s) = 0

abbrev json : Json
json = record {
  Element = Element;
  is_null = λ e. false;
  is_uint64 = is_number;
  is_string = λ e. not (is_number e);
  is_bool = λ e. false;
  get_uint64 = to_number;
  get_bool = λ e. false;
}

abbrev fields : List (Bytes × Element)
fields =
    (codes "LUA_START_SCRIPT_FILENAME", text (codes "a.lua"))
    ∷ (codes "LUA_GC_STEPSIZE", number 200)
    ∷ []

abbrev files : ScriptFiles
files = record {
  exists = λ p. true;
  extension = λ p. codes ".lua";
  read = λ p. some (codes "return 1");
}

abbrev lua : LuaCore
lua = record { startup_script_path = []; startup_script_content = []; calls = [] }

script_setting : setting json lua_start_script_filename fields ≡ some (text (codes "a.lua"))
unfolding setting parameter_of_key first_match bytes_eq to_index
script_setting = refl

init_string-run_startup_script_example :
    (lua' : LuaCore) × (((text : Bytes) × IsScript files (codes "a.lua") text
        × (init_string files (codes "a.lua") lua ≡ (true, lua'))
        × (run_startup_script (λ t. true) lua'
            ≡ (true, record lua' { calls = lua.calls ++ calls_of text })))
      ⊎ ((init_string files (codes "a.lua") lua ≡ (false, lua'))
          × (run_startup_script (λ t. true) lua'
              ≡ (true, record lua' { calls = lua.calls ++ calls_of [] }))))
init_string-run_startup_script_example =
    init_string-run_startup_script files (λ t. true) (codes "a.lua") lua (λ e. cc)
