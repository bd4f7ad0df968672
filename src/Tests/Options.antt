-- ===== src/Tests/Options.antt =====
-- The theorems about the command lines at a `strtol` that reads three texts.
use virtual_blackboard.Prelude.{
  ℕ, ◌≡◌, refl, ◌++◌, List, [], ◌∷◌, length, some, if◌then◌else◌, ◌==◌,
}
use virtual_blackboard.Net.Strings.{codes}
use virtual_blackboard.Server.Options.{d, p, parse_options, defaults}
use virtual_blackboard.Client.Options
use virtual_blackboard.Client.Options.{port, name, docent}
use virtual_blackboard.Protocol.Port.{port_of, parse_options-agree}

-- One digit is out of the range; five digits are read as 50001.
abbrev reads : List ℕ → ℕ
reads text = if length text == 5 then 50001 else 7

abbrev guest : Options.Settings
guest = record { server_addr = []; listen_port = codes "50000"; name = codes "Guest"; role = 0 }

-- `server -p 7 -d -p 50001 -d` and `client -2 -p 7 -p 50001 -n Ada`.
parse_options-agree_example :
    ((parse_options reads
        ((p (codes "7") ∷ d ∷ []) ++ p (codes "50001") ∷ d ∷ [])
        defaults).listen_port
      ≡ codes "50001")
    × (port_of (
          Options.parse_options reads
            ((docent ∷ port (codes "7") ∷ []) ++ port (codes "50001") ∷ name (codes "Ada") ∷ [])
            guest)
        ≡ some (codes "50001"))
parse_options-agree_example =
    parse_options-agree reads (p (codes "7") ∷ d ∷ []) (d ∷ []) (docent ∷ port (codes "7") ∷ [])
      (name (codes "Ada") ∷ []) (codes "50001") defaults guest refl refl refl refl
