-- ===== src/Client/Options.antt =====
-- The command line of the client: the loop over `getopt_long` in main of src/client/client.c.
use virtual_blackboard.Prelude.{ℕ, Option, none, some, List, [], ◌∷◌, if◌then◌else◌}
use virtual_blackboard.Server.Options.{default_port, is_outside}

-- What `getopt_long` finds, one after the other, with `optarg`.
pub data LongOpt : Type 0 where
  server port name : (optarg : List ℕ) → LongOpt
  student docent help other : LongOpt

pub record Settings : Type 0 where
  pub server_addr : List ℕ
  pub listen_port : List ℕ
  pub name : List ℕ
  pub role : ℕ

-- One round of the loop: none if the program prints its help and ends. `strtol` is the number that
-- the library's function reads, as the 64 bits of a `long`.
unfoldable pub set_option : (strtol : List ℕ → ℕ) → LongOpt → Settings → Option Settings
set_option strtol (server optarg) s = some (record s { server_addr = optarg })
set_option strtol (port optarg) s =
    some (record s { listen_port = if is_outside (strtol optarg) then default_port else optarg })
set_option strtol (name optarg) s = some (record s { name = optarg })
set_option strtol student s = some (record s { role = 1 })
set_option strtol docent s = some (record s { role = 2 })
set_option strtol help s = none
set_option strtol other s = some s

unfoldable pub parse_options : (strtol : List ℕ → ℕ) → List LongOpt → Settings → Option Settings
parse_options strtol [] s = some s
parse_options strtol (o ∷ os) s = elim (set_option strtol o s) [
  | none ↦ none
  | some s' ↦ parse_options strtol os s'
]
