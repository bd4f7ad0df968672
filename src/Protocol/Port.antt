-- ===== src/Protocol/Port.antt =====
-- The port that the server listens on and the one that the client connects to, from their command
-- lines.
use virtual_blackboard.Prelude.{
  ℕ, ◌≤◌, ◌%◌, ◌^◌, ◌≡◌, ◌∙◌, refl, Bool, true, false, List, [], ◌∷◌, ◌++◌, Option, none, some,
  if◌then◌else◌, arith,
}
use virtual_blackboard.Server.Options.{
  default_port, is_outside, Opt, d, p, other, Settings, set_option, parse_options,
}
use virtual_blackboard.Client.Options
use virtual_blackboard.Client.Options.{LongOpt, server, port, name, student, docent, help}

-- The port arguments whose lower 32 bits are in the range, in their order.
abbrev pub ports_in_range : (strtol : List ℕ → ℕ) → List Opt → List (List ℕ)
ports_in_range strtol [] = []
ports_in_range strtol (d ∷ os) = ports_in_range strtol os
ports_in_range strtol (p optarg ∷ os) =
    if is_outside (strtol optarg % 2 ^ 32)
    then ports_in_range strtol os
    else optarg ∷ ports_in_range strtol os
ports_in_range strtol (other ∷ os) = ports_in_range strtol os

abbrev pub last_or : List ℕ → List (List ℕ) → List ℕ
last_or start [] = start
last_or start (x ∷ xs) = last_or x xs

port_choice :
    (b : Bool) (s : Settings) (optarg : List ℕ) (rest : List (List ℕ))
    → last_or (if b then s else record s { listen_port = optarg }).listen_port rest
      ≡ last_or s.listen_port (if b then rest else optarg ∷ rest)
port_choice true s optarg rest = refl
port_choice false s optarg rest = refl

-- One option and the ports behind it.
set_option-last_or :
    (strtol : List ℕ → ℕ) (o : Opt) (os : List Opt) (s : Settings)
    → last_or (set_option strtol o s).listen_port (ports_in_range strtol os)
      ≡ last_or s.listen_port (ports_in_range strtol (o ∷ os))
unfolding set_option
set_option-last_or strtol d os s = refl
set_option-last_or strtol (p optarg) os s =
    port_choice (is_outside (strtol optarg % 2 ^ 32)) s optarg (ports_in_range strtol os)
set_option-last_or strtol other os s = refl

-- The server listens on the last of its port arguments that passes the test of the range, and on the
-- port that it started with if none does; an argument that fails the test changes nothing.
pub parse_options-listen_port :
    (strtol : List ℕ → ℕ) (os : List Opt) (s : Settings)
    → (parse_options strtol os s).listen_port ≡ last_or s.listen_port (ports_in_range strtol os)
unfolding parse_options
parse_options-listen_port strtol [] s = refl
parse_options-listen_port strtol (o ∷ os) s =
    parse_options-listen_port strtol os (set_option strtol o s) ∙ set_option-last_or strtol o os s

low_bits : (v : ℕ) → is_outside v ≡ false → is_outside (v % 2 ^ 32) ≡ false
low_bits v h =
    let small : v ≤ 65535 = ground arith in
    let same : v % 2 ^ 32 ≡ v = omega (arith, small) in rw same h

-- No port option.
abbrev pub has_no_port : List Opt → Bool
has_no_port [] = true
has_no_port (d ∷ os) = has_no_port os
has_no_port (p optarg ∷ os) = false
has_no_port (other ∷ os) = has_no_port os

-- No call for help.
abbrev pub has_no_help : List LongOpt → Bool
has_no_help [] = true
has_no_help (help ∷ os) = false
has_no_help (server optarg ∷ os) = has_no_help os
has_no_help (port optarg ∷ os) = has_no_help os
has_no_help (name optarg ∷ os) = has_no_help os
has_no_help (student ∷ os) = has_no_help os
has_no_help (docent ∷ os) = has_no_help os
has_no_help (LongOpt.other ∷ os) = has_no_help os

-- Neither a call for help nor a port option.
abbrev pub keeps_port : List LongOpt → Bool
keeps_port [] = true
keeps_port (help ∷ os) = false
keeps_port (server optarg ∷ os) = keeps_port os
keeps_port (port optarg ∷ os) = false
keeps_port (name optarg ∷ os) = keeps_port os
keeps_port (student ∷ os) = keeps_port os
keeps_port (docent ∷ os) = keeps_port os
keeps_port (LongOpt.other ∷ os) = keeps_port os

server_rest :
    (strtol : List ℕ → ℕ) (os : List Opt) (s : Settings)
    → has_no_port os ≡ true
    → (parse_options strtol os s).listen_port ≡ s.listen_port
unfolding parse_options set_option
server_rest strtol [] s h = refl
server_rest strtol (d ∷ os) s h = server_rest strtol os (record s { debug = true }) h
server_rest strtol (p optarg ∷ os) s h = absurd (ground arith)
server_rest strtol (other ∷ os) s h = server_rest strtol os s h

server_port :
    (strtol : List ℕ → ℕ) (os later : List Opt) (arg : List ℕ) (s : Settings)
    → has_no_port later ≡ true
    → is_outside (strtol arg) ≡ false
    → (parse_options strtol (os ++ p arg ∷ later) s).listen_port ≡ arg
unfolding parse_options set_option
server_port strtol [] later arg s n h =
    server_rest strtol later (set_option strtol (p arg) s) n ∙ rw (low_bits (strtol arg) h) refl
server_port strtol (o ∷ os) later arg s n h =
    server_port strtol os later arg (set_option strtol o s) n h

-- The port that the client connects to, if it goes on.
abbrev pub port_of : Option Options.Settings → Option (List ℕ)
port_of none = none
port_of (some s) = some s.listen_port

client_rest :
    (strtol : List ℕ → ℕ) (os : List LongOpt) (s : Options.Settings)
    → keeps_port os ≡ true
    → port_of (Options.parse_options strtol os s) ≡ some s.listen_port
unfolding Options.parse_options Options.set_option
client_rest strtol [] s h = refl
client_rest strtol (help ∷ os) s h = absurd (ground arith)
client_rest strtol (server a ∷ os) s h = client_rest strtol os (record s { server_addr = a }) h
client_rest strtol (port a ∷ os) s h = absurd (ground arith)
client_rest strtol (name a ∷ os) s h = client_rest strtol os (record s { name = a }) h
client_rest strtol (student ∷ os) s h = client_rest strtol os (record s { role = 1 }) h
client_rest strtol (docent ∷ os) s h = client_rest strtol os (record s { role = 2 }) h
client_rest strtol (LongOpt.other ∷ os) s h = client_rest strtol os s h

client_port :
    (strtol : List ℕ → ℕ) (os later : List LongOpt) (arg : List ℕ) (s : Options.Settings)
    → has_no_help os ≡ true
    → keeps_port later ≡ true
    → is_outside (strtol arg) ≡ false
    → port_of (Options.parse_options strtol (os ++ port arg ∷ later) s) ≡ some arg
unfolding Options.parse_options Options.set_option
client_port strtol [] later arg s n k h =
    client_rest strtol later
      (record s { listen_port = if is_outside (strtol arg) then default_port else arg }) k
    ∙ rw h refl
client_port strtol (help ∷ os) later arg s n k h = absurd (ground arith)
client_port strtol (server a ∷ os) later arg s n k h =
    client_port strtol os later arg (record s { server_addr = a }) n k h
client_port strtol (port a ∷ os) later arg s n k h =
    client_port strtol os later arg
      (record s { listen_port = if is_outside (strtol a) then default_port else a }) n k h
client_port strtol (name a ∷ os) later arg s n k h =
    client_port strtol os later arg (record s { name = a }) n k h
client_port strtol (student ∷ os) later arg s n k h =
    client_port strtol os later arg (record s { role = 1 }) n k h
client_port strtol (docent ∷ os) later arg s n k h =
    client_port strtol os later arg (record s { role = 2 }) n k h
client_port strtol (LongOpt.other ∷ os) later arg s n k h = client_port strtol os later arg s n k h

-- If the last port argument of the server's command line and that of the client's are the same, and
-- it is in the range, then the server listens on it and the client connects to it, whatever the other
-- options are, as long as none of the client's is the call for help.
pub parse_options-agree :
    (strtol : List ℕ → ℕ) (os later : List Opt) (ls ends : List LongOpt) (arg : List ℕ)
    (s : Settings) (c : Options.Settings)
    → has_no_port later ≡ true
    → has_no_help ls ≡ true
    → keeps_port ends ≡ true
    → is_outside (strtol arg) ≡ false
    → ((parse_options strtol (os ++ p arg ∷ later) s).listen_port ≡ arg)
      × (port_of (Options.parse_options strtol (ls ++ port arg ∷ ends) c) ≡ some arg)
parse_options-agree strtol os later ls ends arg s c n m k h =
    (server_port strtol os later arg s n h, client_port strtol ls ends arg c m k h)
