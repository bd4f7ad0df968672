-- ===== src/Net/Build.antt =====
-- The message builders of src/server/message_builder.c. Each returns the bytes of the message; the
-- `length` argument says how many bytes of the text are copied.
use virtual_blackboard.Prelude.{ℕ, ◌+◌, ◌-◌, ◌%◌, ◌^◌, List, ◌∷◌, ◌++◌, take}
use virtual_blackboard.Net.{
  m_status, m_board, m_query, m_error, sizeof_net_status, sizeof_net_header, htons,
}

unfoldable pub build_status : (role cid perm dcount tcount scount : ℕ) → List ℕ
unfolding htons
build_status role cid perm dcount tcount scount =
    m_status ∷ htons (sizeof_net_status - sizeof_net_header)
    ++ (role ∷ htons cid ++ (perm ∷ dcount ∷ tcount ∷ htons scount))

unfoldable pub build_board : (content : List ℕ) (length : ℕ) → List ℕ
unfolding htons
build_board content length = m_board ∷ htons (length % 2 ^ 16) ++ take length content

unfoldable pub build_query : (cid : ℕ) (name : List ℕ) (length : ℕ) → List ℕ
unfolding htons
build_query cid name length =
    m_query ∷ htons ((2 + length) % 2 ^ 16) ++ (htons cid ++ take length name)

unfoldable pub build_error : (ecode : ℕ) (detail : List ℕ) (length : ℕ) → List ℕ
unfolding htons
build_error ecode detail length =
    m_error ∷ htons ((1 + length) % 2 ^ 16) ++ (ecode ∷ take length detail)
