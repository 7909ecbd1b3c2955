-- ===== src/Control/Server/Agree.antt =====
-- The client and the server agree on the commands.
use khadas_yolov8n_multithre.Prelude.{
  ℕ, ◌≡◌, refl, true, false, none, some, List, [], ◌∷◌, arith, length, ◌<◌, ◌≤◌, ◌^◌,
}
use khadas_yolov8n_multithre.Control.{Command, parse_command, build_command}
use khadas_yolov8n_multithre.Control.Words.{
  pause_yolo_text, resume_yolo_text, get_status_text, set_dump_enabled_text, shutdown_text,
  blackout_text, resume_text, true_text, false_text,
}

-- The arguments for a command, after the device; any name that is no command stands for `unknown`.
unfoldable pub command_line : Command → List (List ℕ)
command_line Command.pause_yolo = pause_yolo_text ∷ []
command_line Command.resume_yolo = resume_yolo_text ∷ []
command_line Command.get_status = get_status_text ∷ []
command_line (Command.set_dump_enabled none) = set_dump_enabled_text ∷ []
command_line (Command.set_dump_enabled (some true)) = set_dump_enabled_text ∷ true_text ∷ []
command_line (Command.set_dump_enabled (some false)) = set_dump_enabled_text ∷ false_text ∷ []
command_line Command.shutdown = shutdown_text ∷ []
command_line Command.blackout = blackout_text ∷ []
command_line Command.resume = resume_text ∷ []
command_line Command.unknown = (63 ∷ []) ∷ []

-- A `set_dump_enabled` without its value is refused by the client itself.
abbrev pub Sendable : Command → Type 0
Sendable (Command.set_dump_enabled none) = ⊥
Sendable _ = Unit {0}

-- For every command that the client can send, it builds a request of at most 1 MB, and the server
-- reads the very command from it, its value included.
pub parse-build_command :
    (c : Command)
    → Sendable c
    → (cmd : List ℕ) × (args : List (List ℕ)) × (json : List ℕ) × (command_line c ≡ cmd ∷ args)
      × (build_command cmd args ≡ some json)
      × (parse_command json ≡ c)
      × (0 < length json)
      × (length json ≤ 2 ^ 20)
unfolding command_line build_command parse_command
parse-build_command Command.pause_yolo h = (_, _, _, refl, refl, refl, omega arith, omega arith)
parse-build_command Command.resume_yolo h = (_, _, _, refl, refl, refl, omega arith, omega arith)
parse-build_command Command.get_status h = (_, _, _, refl, refl, refl, omega arith, omega arith)
parse-build_command (Command.set_dump_enabled none) h = absurd h
parse-build_command (Command.set_dump_enabled (some true)) h =
    (_, _, _, refl, refl, refl, omega arith, omega arith)
parse-build_command (Command.set_dump_enabled (some false)) h =
    (_, _, _, refl, refl, refl, omega arith, omega arith)
parse-build_command Command.shutdown h = (_, _, _, refl, refl, refl, omega arith, omega arith)
parse-build_command Command.blackout h = (_, _, _, refl, refl, refl, omega arith, omega arith)
parse-build_command Command.resume h = (_, _, _, refl, refl, refl, omega arith, omega arith)
parse-build_command Command.unknown h = (_, _, _, refl, refl, refl, omega arith, omega arith)
