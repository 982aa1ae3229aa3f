-- ===== src/Utils/AppHandlers.antt =====
-- `UtilsManager::Bind`: the handlers of app_start, app_stop, app_check_status and command_execute.
use sdl_atf.Common.{ℕ, ℤ, Option, some, List, [], ◌∷◌, Bytes}
use sdl_atf.Protocol.Decimal.{to_string}
use sdl_atf.Protocol.{
  ParameterType, ResponseType, pair, success, type_string, LexicalCast, get_value, bad_number,
  ◌>>=◌, answer, answer_in,
}
use sdl_atf.Utils.Starting.{Spawner, start_app}
use sdl_atf.Utils.Apps.{Processes, stop_app, check_app_status}
use sdl_atf.Utils.Command.{execute_command}

-- The signal that StopApp sends by default.
abbrev pub sigterm : ℕ
sigterm = 15

abbrev code_response : {P : Type 0} → P × ℤ → P × ResponseType
code_response (p, res) = (p, pair [] res)

abbrev text_response : Bytes × ℤ → ResponseType
text_response (text, code) = pair text code

module _ {P : Type 0} (cast : LexicalCast) where
  unfoldable pub handle_app_start : Spawner P → P → List ParameterType → P × ResponseType
  handle_app_start os p (a ∷ b ∷ []) = answer_in p do
    app_path ← get_value type_string cast.to_text a
    app_name ← get_value type_string cast.to_text b
    some (code_response (start_app os p app_path app_name))
  handle_app_start os p _ = (p, bad_number)

  unfoldable pub handle_app_stop : Processes P → P → List ParameterType → P × ResponseType
  handle_app_stop os p (a ∷ []) = answer_in p do
    app_name ← get_value type_string cast.to_text a
    some (code_response (stop_app os p app_name sigterm))
  handle_app_stop os p _ = (p, bad_number)

  -- The status is sent as a text, with SUCCESS.
  unfoldable pub handle_app_check_status : Processes P → P → List ParameterType → ResponseType
  handle_app_check_status os p (a ∷ []) = answer do
    app_name ← get_value type_string cast.to_text a
    some (pair (to_string (check_app_status os p app_name)) success)
  handle_app_check_status os p _ = bad_number

-- Where `run` gives what a command writes and the status that `pclose` returns for it.
unfoldable pub handle_command_execute :
    LexicalCast → (Bytes → Option Bytes × ℤ) → List ParameterType → ResponseType
handle_command_execute cast run (a ∷ []) = answer do
  bash_command ← get_value type_string cast.to_text a
  some (text_response (execute_command (run bash_command).0 (run bash_command).1))
handle_command_execute cast run _ = bad_number
