-- ===== src/Entry/Handler/Login.antt =====
-- `ClientHandler::on_login` (order_entry/oe_client_handler.cpp).
--
-- The session id that the generator gives is an argument.
pub mod Sessions
use ndfex.Prelude.{
  ℕ, Bool, true, false, not, ◌&&◌, List, [], ◌∷◌, ◌++◌, Option, none, some, ◌==◌, if◌then◌else◌,
}
use ndfex.Prelude.Map.{lookup, insert}
use ndfex.Entry.Handler.{Handler, Header}
use ndfex.Entry.Handler.Sockets.{
  Sent, Reply, Output, message, shut, Server, Call, login_response, error_message, write_msg,
  close_socket, or_close,
}

pub record UserInfo : Type 0 where
  pub username : List ℕ
  pub password : List ℕ
  pub client_id : ℕ

-- The bytes before the first that is 0: `strnlen` at the length of the field.
unfoldable pub until_nul : List ℕ → List ℕ
until_nul [] = []
until_nul (b ∷ bs) = let rest = until_nul bs in if b == 0 then [] else b ∷ rest

abbrev pub same_text : List ℕ → List ℕ → Bool
same_text [] [] = true
same_text [] (b ∷ bs) = false
same_text (a ∷ xs) [] = false
same_text (a ∷ xs) (b ∷ bs) = a == b && same_text xs bs

unfoldable pub find_user : List ℕ → List UserInfo → Option UserInfo
find_user name [] = none
find_user name (u ∷ us) = if same_text u.username name then some u else find_user name us

-- The answer to a log-in that is refused, and the end of its socket.
abbrev pub refusal : ℕ → Header → ℕ → List Output
refusal sock h status =
    message sock (record { seq_num = h.seq_num; last_seq_num = 0; client_id = h.client_id })
      (login_response 0 status)
    ∷ shut sock
    ∷ []

module _ (replies : ℕ → List (Sent × ℕ)) where
  -- The client has no session.
  unfoldable pub start_session : ℕ → ℕ → Header → Server → Call
  unfolding write_msg close_socket
  start_session session_id sock h s = or_close replies sock (
      write_msg replies sock (login_response session_id 0) (record s {
        handler = record (s.handler) {
          sock_to_session_info =
              insert sock
                (record {
                  session_id = session_id;
                  client_id = h.client_id;
                  last_seq_num = h.seq_num;
                  exch_seq_num = 0;
                })
                s.handler.sock_to_session_info;
          client_to_sock_fd = insert h.client_id sock s.handler.client_to_sock_fd;
        };
      }))

  -- Whatever becomes of the message to the other socket, that socket is closed.
  abbrev pub and_close : ℕ → Option (Server × List Output × Bool) → Call
  and_close sock none = none
  and_close sock (some (s, outs, sent)) =
      let (s', outs') = close_socket sock s in some (s', outs ++ outs')

  abbrev pub after_outputs : List Output → Call → Call
  after_outputs outs none = none
  after_outputs outs (some (s, outs')) = some (s, outs ++ outs')

  -- The client has a session, on the socket `other_fd`.
  unfoldable pub duplicate_login : ℕ → ℕ → Header → Server → Call
  unfolding write_msg close_socket
  duplicate_login other_fd sock h s =
      if other_fd == sock
      then some (s, [])
      else elim (lookup other_fd s.handler.sock_to_session_info) [
        | none ↦ some (s, shut sock ∷ [])
        | some i ↦
            after_outputs (refusal sock h 8)
              (and_close other_fd (write_msg replies other_fd (error_message 9) s))
      ]

  unfoldable pub on_login : List UserInfo → ℕ → ℕ → Header → List ℕ → List ℕ → Server → Call
  unfolding until_nul find_user start_session duplicate_login
  on_login users session_id sock h username password s =
      elim (find_user (until_nul username) users) [
        | none ↦ some (s, refusal sock h 5)
        | some u ↦
            if not (same_text u.password (until_nul password))
            then some (s, refusal sock h 6)
            else if not (u.client_id == h.client_id)
            then some (s, refusal sock h 10)
            else elim (lookup h.client_id s.handler.client_to_sock_fd) [
              | none ↦ start_session session_id sock h s
              | some other_fd ↦ duplicate_login other_fd sock h s
            ]
      ]
