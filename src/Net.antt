-- ===== src/Net.antt =====
-- The messages on the wire: src/net_message.h and src/net_message.c. A packed struct that is sent
-- or received is the list of its bytes, and a 16-bit field stands in network byte order.
pub mod Strings
pub mod Build
use virtual_blackboard.Prelude.{ℕ, ◌+◌, ◌*◌, ◌/◌, ◌%◌, ◌^◌, ◌<◌, ◌≡◌, List, [], ◌∷◌, arith}

-- `enum message_types`.
abbrev pub m_login : ℕ
m_login = 0

abbrev pub m_status : ℕ
m_status = 1

abbrev pub m_board : ℕ
m_board = 2

abbrev pub m_clear : ℕ
m_clear = 3

abbrev pub m_shutdown : ℕ
m_shutdown = 4

abbrev pub m_request : ℕ
m_request = 5

abbrev pub m_query : ℕ
m_query = 6

abbrev pub m_reply : ℕ
m_reply = 7

abbrev pub m_error : ℕ
m_error = 255

-- `enum error_codes`.
abbrev pub e_message : ℕ
e_message = 0

abbrev pub e_fatal : ℕ
e_fatal = 1

abbrev pub e_login : ℕ
e_login = 10

abbrev pub sizeof_net_header : ℕ
sizeof_net_header = 3

abbrev pub sizeof_net_status : ℕ
sizeof_net_status = 11

abbrev pub sizeof_net_board : ℕ
sizeof_net_board = 3

abbrev pub sizeof_net_query : ℕ
sizeof_net_query = 5

abbrev pub sizeof_net_error : ℕ
sizeof_net_error = 4

-- The memory of a `uint16_t` that `htons` has converted, and what `ntohs` reads from it.
unfoldable pub htons : ℕ → List ℕ
htons n = n / 256 % 256 ∷ n % 256 ∷ []

unfoldable pub ntohs : (high low : ℕ) → ℕ
ntohs high low = high * 256 + low

-- Reading back what was written.
pub ntohs-htons : (n : ℕ) → n < 65536 → ntohs (n / 256 % 256) (n % 256) ≡ n
unfolding ntohs
ntohs-htons n h = omega arith

-- `struct net_header` in host byte order.
pub record NetHeader : Type 0 where
  pub type : ℕ
  pub size : ℕ

-- The bytes of a header that `hton_header` has filled in: both casts cut the value to its width.
unfoldable pub hton_header : (type size : ℕ) → List ℕ
unfolding htons
hton_header type size = type % 2 ^ 8 ∷ htons (size % 2 ^ 16)

-- The header in three received bytes, in host byte order.
unfoldable pub ntoh_header : (type high low : ℕ) → NetHeader
unfolding ntohs
ntoh_header type high low = record { type = type; size = ntohs high low }
