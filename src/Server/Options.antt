-- ===== src/Server/Options.antt =====
-- The command line of the server: the loop over `getopt` in main of src/server/server.c.
use virtual_blackboard.Prelude.{
  ℕ, ◌%◌, ◌^◌, Bool, true, false, List, [], ◌∷◌, ltb, ◌||◌, if◌then◌else◌,
}
use virtual_blackboard.Net.Strings.{codes}

-- Constants of commons.h.
abbrev pub default_port : List ℕ
default_port = codes "50000"

abbrev pub port_range_min : ℕ
port_range_min = 49152

abbrev pub port_range_max : ℕ
port_range_max = 65535

abbrev pub is_outside : ℕ → Bool
is_outside port = ltb port port_range_min || ltb port_range_max port

-- What `getopt` finds, one after the other, with `optarg`.
pub data Opt : Type 0 where
  d : Opt
  p : (optarg : List ℕ) → Opt
  other : Opt

pub record Settings : Type 0 where
  pub listen_port : List ℕ
  pub debug : Bool

-- One round of the loop. `strtol` is the number that the library's function reads, as the 64 bits of
-- a `long`; `lport` keeps 32 of them.
unfoldable pub set_option : (strtol : List ℕ → ℕ) → Opt → Settings → Settings
set_option strtol d s = record s { debug = true }
set_option strtol (p optarg) s =
    let lport = strtol optarg % 2 ^ 32 in
    if is_outside lport then s else record s { listen_port = optarg }
set_option strtol other s = s

unfoldable pub parse_options : (strtol : List ℕ → ℕ) → List Opt → Settings → Settings
parse_options strtol [] s = s
parse_options strtol (o ∷ os) s = parse_options strtol os (set_option strtol o s)

unfoldable pub defaults : Settings
defaults = record { listen_port = default_port; debug = false }
