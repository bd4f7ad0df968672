-- ===== src/Protocol/Board.antt =====
-- The text of the writer, from the writer's client to the board and on to the other clients.
use virtual_blackboard.Prelude.{
  ℕ, zero, suc, ◌-◌, ◌/◌, ◌%◌, ◌^◌, ◌≤◌, ◌<◌, ◌≡◌, ◌∙◌, sym, subst, refl, ap, inl, inr, true, false,
  Bool-cases, List, [], ◌∷◌, ◌++◌, length, length-take, take, take_all, ltb, ◌==◌, if◌then◌else◌,
  ok, Outcome, ◌⊎◌, take-append, Returns, Returns-mono, arith,
}
use virtual_blackboard.ClientList.Seg.{Roster}
use virtual_blackboard.ClientList.Lookup.{client_at, is_at}
use virtual_blackboard.Net.{m_board, htons, ntohs, ntohs-htons}
use virtual_blackboard.Net.Strings.{NoNul, strlen, strlen-append}
use virtual_blackboard.Net.Build.{build_board}
use virtual_blackboard.Server.World.{World, Stream, success, failed, recv, fill, zeros}
use virtual_blackboard.Server.Invariant.{Inv}
use virtual_blackboard.Server.BoardHandler.Content.{capped, painted, arrives}
use virtual_blackboard.Server.BoardHandler.Access.{board_handler-Handled}
use virtual_blackboard.Server.ClientThread.{dispatch}
use virtual_blackboard.Client.State.{Client}
use virtual_blackboard.Client.Commands.{board_message}
use virtual_blackboard.Client.TextView.{Gtk, TextBuffer, insert_count}
use virtual_blackboard.Client.TextView.Whole.{nowhere, is_fit, insert_count-length}
use virtual_blackboard.Client.TextView.Emission.{unprepared, Emits, Deletes, insert-edited}
use virtual_blackboard.Client.Listener.{listener_round}
use virtual_blackboard.Client.Listener.Dialogs.{listener_round-board}
use virtual_blackboard.Protocol.Messages.{served, served_run, served_rest, fill-append}

-- The bytes that a client receives next.
abbrev pub receiving : List ℕ → Client → Client
receiving bytes c = record c { stream = record c.stream { bytes = bytes } }

arrives_whole :
    (buffer rest : List ℕ) (s : Stream)
    → s.bytes ≡ buffer ++ rest
    → arrives (length buffer) s ≡ true
unfolding arrives
arrives_whole [] rest s e = refl
arrives_whole (b ∷ bs) rest s e =
    let some : (suc (length bs) == 0) ≡ false = ground arith in rw (e, some)

-- A content that has arrived whole is painted as it was sent.
painted_whole :
    (buffer rest : List ℕ) (s : Stream) (stale : ℕ → ℕ)
    → s.bytes ≡ buffer ++ rest
    → (if arrives (length buffer) s
        then painted (length buffer) (fill (length buffer) stale s.bytes)
        else zeros 1200)
      ≡ painted (length buffer) buffer
painted_whole buffer rest s stale e = rw (arrives_whole buffer rest s e) (
    ap (painted (length buffer))
      (ap (fill (length buffer) stale) e ∙ fill-append buffer rest stale))

not_long : (n : ℕ) → ltb 1199 n ≡ false → n ≤ 1199
not_long n h = ground arith

-- The text that the board holds is what was sent, cut at 1199 bytes.
painted_text :
    (buffer : List ℕ)
    → painted (length buffer) buffer ≡ take 1199 buffer ++ 0 ∷ zeros (1199 - capped (length buffer))
unfolding painted zeros
painted_text buffer = elim (Bool-cases (ltb 1199 (length buffer))) [
  | inl long ↦ rw long
  | inr short ↦
      let small = not_long (length buffer) short in
      let whole = take_all (length buffer) buffer (omega arith) in
      let all = take_all 1199 buffer small in
      let e : 1200 - length buffer ≡ suc (1199 - length buffer) = omega arith in
      rw (short, whole, all, e)
]

NoNul-take : (n : ℕ) (cs : List ℕ) → NoNul cs → NoNul (take n cs)
NoNul-take zero cs h = tt
NoNul-take (suc n) [] h = tt
NoNul-take (suc n) (c ∷ cs) h = (h.0, NoNul-take n cs h.1)

-- The content that the client sends is on the board when the handler has returned, cut at 1199
-- bytes and with zeros behind it.
pub board_message-painted :
    (w : World) (xs : Roster)
    → Inv w xs
    → (sfd : ℕ) (buffer rest : List ℕ) → length buffer < 65536
    → is_at sfd (client_at w.clients.user_write xs) ≡ 1
    → (w.streams sfd).bytes ≡ board_message buffer ++ rest
    → Returns
        (λ r.
          Inv r.0 xs
          × (r.0.clients ≡ w.clients)
          × (r.0.board ≡ painted (length buffer) buffer)
          × (r.1 ≡ success))
        (served sfd w)
unfolding dispatch board_message htons recv
board_message-painted w xs v sfd buffer rest short writer arrived =
    let n = length buffer in
    let cut : n % 2 ^ 16 ≡ n = omega arith in
    let size = ap (λ k. ntohs (k / 256 % 256) (k % 256)) cut ∙ ntohs-htons n short in
    let w' = (recv sfd 3 w).0 in
    let left = served_rest sfd m_board _ _ _ w arrived in
    rw (served_run sfd m_board _ _ _ w arrived, size)
      (Returns-mono (board_handler-Handled w' xs v sfd n m_board writer)
        (λ r (inv, clients, archive, board, code). (
          inv,
          clients,
          board ∙ painted_whole buffer rest (w'.streams sfd) w.stale left,
          code
              ∙ ap (λ b. if b then success else failed)
                  (arrives_whole buffer rest (w'.streams sfd) left),
        )))

-- `gtk_text_buffer_set_text` inserts the text into the empty buffer.
abbrev pub Inserts :
    (insert : List ℕ → TextBuffer → Outcome TextBuffer) (inserted : List ℕ → List ℕ) → Type 0
Inserts insert inserted =
    (text : List ℕ) → insert text (unprepared [] [] []) ≡ ok (unprepared (inserted text) [] [])

text_before : Outcome TextBuffer → List ℕ
text_before (ok b) = b.before
text_before other = []

-- What the text view makes of a text: what `on_insert_text` lets pass of it.
inserted_lem :
    (g : Gtk) (insert : List ℕ → TextBuffer → Outcome TextBuffer)
    → Emits g insert
    → Deletes g
    → g.place (unprepared [] [] []) ≡ nowhere
    → (inserted : List ℕ → List ℕ) → Inserts insert inserted
    → (text : List ℕ) → inserted text ≡ take (insert_count g.utf8_strlen nowhere text) text
unfolding text_before
inserted_lem g insert emits deletes place inserted inserts text =
    ap text_before (sym (inserts text) ∙ insert-edited g insert emits deletes text [] [] [])
    ∙ ap (λ p. take (insert_count g.utf8_strlen p text) text) place

-- All of a text that fits passes.
passes_whole :
    (g : Gtk) (text : List ℕ)
    → (take (insert_count g.utf8_strlen nowhere text) text ≡ text) ⊎ (is_fit 14 0 text ≡ false)
passes_whole g text = elim (Bool-cases (is_fit 14 0 text)) [
  | inl fit ↦
      let n = insert_count-length g.utf8_strlen text fit in
      inl (rw n (take_all (length text) text (omega arith)))
  | inr unfit ↦ inr unfit
]

-- What the client with write access sends reaches the other clients: the board's text, as the server
-- builds it from the board after the message, is the content that was sent, cut at 1199 bytes, and a
-- client that receives it shows what `on_insert_text` lets pass of that text into the empty buffer:
-- the whole of it, if it has at most 15 lines with at most 79 bytes each. The board's mutex of the
-- receiving client must be free. Of GTK it is taken what it documents of insertions and deletions.
pub board_message-shown :
    (w : World) (xs : Roster)
    → Inv w xs
    → (sfd : ℕ) (buffer rest : List ℕ) → length buffer < 65536
    → NoNul buffer
    → is_at sfd (client_at w.clients.user_write xs) ≡ 1
    → (w.streams sfd).bytes ≡ board_message buffer ++ rest
    → (g : Gtk) (insert : List ℕ → TextBuffer → Outcome TextBuffer) → Emits g insert
    → Deletes g
    → g.place (unprepared [] [] []) ≡ nowhere
    → (c : Client) (rest' : List ℕ) → c.board_mutex ≡ false
    → Inserts insert c.inserted
    → Returns
        (λ r.
          (n : ℕ) × (strlen r.0.board ≡ ok n)
          × (take n r.0.board ≡ take 1199 buffer)
          × Returns
              (λ u.
                (u.0.window.shown
                  ≡ take (insert_count g.utf8_strlen nowhere (take 1199 buffer)) (take 1199 buffer))
                × ((u.0.window.shown ≡ take 1199 buffer)
                    ⊎ (is_fit 14 0 (take 1199 buffer) ≡ false)))
              (listener_round (receiving (build_board r.0.board n ++ rest') c)))
        (served sfd w)
board_message-shown w xs v sfd buffer rest short clean writer arrived g insert emits deletes place c
      rest' free inserts =
    let text = take 1199 buffer in
    let more = 0 ∷ zeros (1199 - capped (length buffer)) in
    let bound : length text < 65536 = omega (arith, length-take 1199 buffer) in
    let passed = inserted_lem g insert emits deletes place c.inserted inserts text in
    Returns-mono (board_message-painted w xs v sfd buffer rest short writer arrived)
      (λ r (inv, clients, board, code).
        let is = board ∙ painted_text buffer in
        (
          length text,
          ap strlen is ∙ strlen-append text _ (NoNul-take 1199 buffer clean),
          ap (take (length text)) is ∙ take-append text more,
          subst
              (λ b.
                Returns
                  (λ u.
                    (u.0.window.shown ≡ take (insert_count g.utf8_strlen nowhere text) text)
                    × ((u.0.window.shown ≡ text) ⊎ (is_fit 14 0 text ≡ false)))
                  (listener_round (receiving (build_board b (length text) ++ rest') c)))
              (sym is)
              (Returns-mono
                (listener_round-board
                  (receiving (build_board (text ++ more) (length text) ++ rest') c) text more rest'
                  free (NoNul-take 1199 buffer clean) bound refl)
                (λ u p.
                  let shown = p.0 ∙ passed in
                  (
                    shown,
                    elim (passes_whole g text) [
                      | inl whole ↦ inl (shown ∙ whole)
                      | inr unfit ↦ inr unfit
                    ],
                  ))),
        ))
