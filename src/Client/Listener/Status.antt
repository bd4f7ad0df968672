-- ===== src/Client/Listener/Status.antt =====
-- A status message of the server at the client.
use virtual_blackboard.Prelude.{
  ℕ, ◌≤◌, ◌<◌, ◌≡◌, refl, ap, true, false, List, ◌++◌, length, Returns, returns, Returns-bind,
}
use virtual_blackboard.Net.{htons, ntohs-htons}
use virtual_blackboard.Net.Build.{build_status}
use virtual_blackboard.Client.State.{Client, cdata_lock, cdata_unlock}
use virtual_blackboard.Client.Window.Refresh.{Allows, update_gui_state-Allows}
use virtual_blackboard.Client.Listener.{listener_round, receive_message, status_case}

-- The client has the user's data from the message.
abbrev pub Informed : (role cid write dcount tcount scount : ℕ) → Client → Type 0
Informed role cid write dcount tcount scount u =
    (u.role ≡ role)
    × (u.cid ≡ cid)
    × (u.write ≡ write)
    × (u.dozenten ≡ dcount)
    × (u.tutoren ≡ tcount)
    × (u.studenten ≡ scount)

-- A status message that the server built is read back at the client, if the mutex of the user's data
-- is free and the user's own name has at most 180 bytes: the round returns and goes on, with the role, the id, the permission and the three numbers that were put in, the widgets allow what
-- they stand for, and the bytes behind the message are left.
pub listener_round-status :
    (c : Client)
    → c.cdata_mutex ≡ false
    → length c.name ≤ 180
    → (role cid write dcount tcount scount : ℕ) (rest : List ℕ) → cid < 65536
    → scount < 65536
    → c.stream.bytes ≡ build_status role cid write dcount tcount scount ++ rest
    → Returns
        (λ r.
          Informed role cid write dcount tcount scount r.0
          × Allows role write r.0.window
          × (r.0.stream.bytes ≡ rest)
          × (r.1 ≡ true))
        (listener_round c)
unfolding listener_round receive_message status_case build_status htons cdata_lock cdata_unlock
listener_round-status c free short role cid write dcount tcount scount rest hc hs arrived =
    rw (arrived, ntohs-htons cid hc, ntohs-htons scount hs, free)
      (Returns-bind (update_gui_state-Allows _ refl short)
        (λ u ((cid_is, role_is, write_is, d, t, s, name, stream, sent, free'), allows).
          returns ((role_is, cid_is, write_is, d, t, s), allows, ap (λ b. b.bytes) stream, refl)))
