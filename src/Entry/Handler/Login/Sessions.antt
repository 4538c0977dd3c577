-- ===== src/Entry/Handler/Login/Sessions.antt =====
-- The two maps of sessions when clients log in (order_entry/oe_client_handler.cpp): the socket of a client
-- has a session of that client.
use ndfex.Prelude.{
  ℕ, ◌+◌, ◌%◌, ◌^◌, ◌≡◌, refl, ap, ◌∙◌, inl, inr, Bool, true, false, List, [], ◌∷◌, ◌++◌, Option,
  none, some, arith, ◌==◌, Bool-cases, Option-cases,
}
use ndfex.Prelude.Map.{lookup, insert, erase, lookup-insert, lookup-erase}
use ndfex.Entry.Handler.{Handler, Header, SessionInfo, on_socket_closed}
use ndfex.Entry.Handler.Sockets.{
  Sent, Output, shut, Reply, Server, Call, reply_size, send_all, with_session, close_socket,
  write_msg, or_close, login_response, error_message,
}
use ndfex.Entry.Handler.Login.{
  UserInfo, until_nul, same_text, find_user, refusal, start_session, and_close, after_outputs,
  duplicate_login, on_login,
}

abbrev pub client_at : Option SessionInfo → Option ℕ
client_at none = none
client_at (some i) = some i.client_id

abbrev pub IsConnected : Handler → Type 0
IsConnected h =
    (client sock : ℕ)
    → lookup client h.client_to_sock_fd ≡ some sock
    → client_at (lookup sock h.sock_to_session_info) ≡ some client

-- A call ends, and the sockets of the clients have their sessions.
pub record Connects (r : Call) : Type 0 where
  pub after : Server
  pub outs : List Output
  pub runs : r ≡ some (after, outs)
  pub connected : IsConnected after.handler

closed-IsConnected :
    (sock : ℕ) (i : SessionInfo) (h : Handler)
    → lookup sock h.sock_to_session_info ≡ some i
    → IsConnected h
    → IsConnected (record h {
      client_to_sock_fd = erase i.client_id h.client_to_sock_fd;
      sock_to_session_info = erase sock h.sock_to_session_info;
    })
closed-IsConnected sock i h found k client sock' e = elim (Bool-cases (i.client_id == client)) [
  | inl same ↦ ground (arith, e, lookup-erase i.client_id client h.client_to_sock_fd)
  | inr other ↦ elim (Bool-cases (sock == sock')) [
    | inr elsewhere ↦ ground (
      arith,
      e,
      lookup-erase i.client_id client h.client_to_sock_fd,
      lookup-erase sock sock' h.sock_to_session_info,
      k client sock',
    )
    | inl here ↦ absurd (
        ground
          (arith, e, found, lookup-erase i.client_id client h.client_to_sock_fd, k client sock'))
  ]
]

on_socket_closed-IsConnected :
    (sock : ℕ) (h : Handler) → IsConnected h → IsConnected (on_socket_closed sock h).0
unfolding on_socket_closed
on_socket_closed-IsConnected sock h k = elim (Option-cases (lookup sock h.sock_to_session_info)) [
  | inl missing ↦ rw (missing, on_socket_closed) k
  | inr (i, found) ↦ rw (found, on_socket_closed) (closed-IsConnected sock i h found k)
]

-- A session changes, but not its client.
with_session-IsConnected :
    (sock : ℕ) (i j : SessionInfo) (s : Server)
    → lookup sock s.handler.sock_to_session_info ≡ some i
    → i.client_id ≡ j.client_id
    → IsConnected s.handler
    → IsConnected (with_session sock j s).handler
with_session-IsConnected sock i j s found same k client sock' e = ground (
  arith,
  e,
  found,
  same,
  lookup-insert sock sock' j s.handler.sock_to_session_info,
  k client sock',
)

-- A session begins on a socket that has none.
started-IsConnected :
    (sock : ℕ) (i : SessionInfo) (h : Handler)
    → lookup sock h.sock_to_session_info ≡ none
    → IsConnected h
    → IsConnected (record h {
      sock_to_session_info = insert sock i h.sock_to_session_info;
      client_to_sock_fd = insert i.client_id sock h.client_to_sock_fd;
    })
started-IsConnected sock i h fresh k client sock' e = elim (Bool-cases (i.client_id == client)) [
  | inl same ↦ ground (
    arith,
    e,
    lookup-insert i.client_id client sock h.client_to_sock_fd,
    lookup-insert sock sock' i h.sock_to_session_info,
  )
  | inr other ↦ elim (Bool-cases (sock == sock')) [
    | inr elsewhere ↦ ground (
      arith,
      e,
      lookup-insert i.client_id client sock h.client_to_sock_fd,
      lookup-insert sock sock' i h.sock_to_session_info,
      k client sock',
    )
    | inl here ↦ absurd (
        ground (
          arith,
          e,
          fresh,
          lookup-insert i.client_id client sock h.client_to_sock_fd,
          k client sock',
        ))
  ]
]

close_socket-Connects :
    (sock : ℕ) (s : Server) (outs : List Output)
    → IsConnected s.handler
    → Connects (some ((close_socket sock s).0, outs ++ (close_socket sock s).1))
unfolding close_socket
close_socket-Connects sock s outs k = record {
  after = (close_socket sock s).0;
  outs = outs ++ (close_socket sock s).1;
  runs = refl;
  connected = on_socket_closed-IsConnected sock s.handler k;
}

stays : (s : Server) (outs : List Output) → IsConnected s.handler → Connects (some (s, outs))
stays s outs k = record { after = s; outs = outs; runs = refl; connected = k }

abbrev WrittenConnects : Option (Server × List Output × Bool) → Type 0
WrittenConnects r =
    (s' : Server) × (outs : List Output) × (sent : Bool) × (r ≡ some (s', outs, sent))
    × IsConnected s'.handler

module _ (replies : ℕ → List (Sent × ℕ))
    (answers : (n : ℕ) (m : Reply)
      → (done : Bool) × (send_all (reply_size m) 0 (replies n) ≡ some done)) where
  write_msg-Connects :
      (sock : ℕ) (m : Reply) (s : Server)
      → IsConnected s.handler
      → WrittenConnects (write_msg replies sock m s)
  unfolding write_msg
  write_msg-Connects sock m s k = elim (Option-cases (lookup sock s.handler.sock_to_session_info)) [
    | inl missing ↦ rw (missing, write_msg) (s, [], false, refl, k)
    | inr (i, found) ↦
        let (done, sends) = answers s.begun m in
        let j : SessionInfo = record i { exch_seq_num = (i.exch_seq_num + 1) % 2 ^ 32 } in
        rw (found, write_msg, sends)
          (_, _, done, refl, with_session-IsConnected sock i j s found refl k)
  ]

  or_close-Connects :
      (sock : ℕ) (r : Option (Server × List Output × Bool))
      → WrittenConnects r
      → Connects (or_close replies sock r)
  or_close-Connects sock r (s', outs, true, runs, k) =
      let c = stays s' outs k in
      record {
        after = c.after;
        outs = c.outs;
        runs = ap (or_close replies sock) runs ∙ c.runs;
        connected = c.connected;
      }
  or_close-Connects sock r (s', outs, false, runs, k) =
      let c = close_socket-Connects sock s' outs k in
      record {
        after = c.after;
        outs = c.outs;
        runs = ap (or_close replies sock) runs ∙ c.runs;
        connected = c.connected;
      }

  start_session-Connects :
      (session_id sock : ℕ) (h : Header) (s : Server)
      → lookup sock s.handler.sock_to_session_info ≡ none
      → IsConnected s.handler
      → Connects (start_session replies session_id sock h s)
  unfolding start_session
  start_session-Connects session_id sock h s fresh k =
      let i : SessionInfo = record {
        session_id = session_id;
        client_id = h.client_id;
        last_seq_num = h.seq_num;
        exch_seq_num = 0;
      } in
      or_close-Connects sock _ (
        write_msg-Connects sock (login_response session_id 0) _
          (started-IsConnected sock i s.handler fresh k))

  and_close-Connects :
      (sock : ℕ) (r : Option (Server × List Output × Bool))
      → WrittenConnects r
      → Connects (and_close replies sock r)
  and_close-Connects sock r (s', outs, sent, runs, k) =
      let c = close_socket-Connects sock s' outs k in
      record {
        after = c.after;
        outs = c.outs;
        runs = ap (and_close replies sock) runs ∙ c.runs;
        connected = c.connected;
      }

  duplicate_login-Connects :
      (other_fd sock : ℕ) (h : Header) (s : Server)
      → IsConnected s.handler
      → Connects (duplicate_login replies other_fd sock h s)
  unfolding duplicate_login
  duplicate_login-Connects other_fd sock h s k = elim (Bool-cases (other_fd == sock)) [
    | inl same ↦ rw (same, duplicate_login) (stays s [] k)
    | inr apart ↦ elim (Option-cases (lookup other_fd s.handler.sock_to_session_info)) [
      | inl missing ↦ rw (apart, missing, duplicate_login) (stays s (shut sock ∷ []) k)
      | inr (i, found) ↦
          let c =
            and_close-Connects other_fd _ (write_msg-Connects other_fd (error_message 9) s k) in
          rw (apart, found, duplicate_login)
            (record {
              after = c.after;
              outs = refusal sock h 8 ++ c.outs;
              runs = ap (after_outputs replies (refusal sock h 8)) c.runs;
              connected = c.connected;
            })
    ]
  ]

  -- If every message to a client is sent or fails in the end, the socket of each client has a
  -- session of that client, and the socket of the log-in has no session: `on_login` ends,
  -- whatever is logged in with and whichever sends fail, and the socket of each client still has
  -- a session of that client.
  pub on_login-Connects :
      (users : List UserInfo) (session_id sock : ℕ) (h : Header) (username password : List ℕ)
      (s : Server)
      → lookup sock s.handler.sock_to_session_info ≡ none
      → IsConnected s.handler
      → Connects (on_login replies users session_id sock h username password s)
  unfolding on_login
  on_login-Connects users session_id sock h username password s fresh k =
      elim (Option-cases (find_user (until_nul username) users)) [
        | inl unknown ↦ rw (unknown, on_login) (stays s (refusal sock h 5) k)
        | inr (u, known) ↦ elim (Bool-cases (same_text u.password (until_nul password))) [
          | inr wrong ↦ rw (known, wrong, on_login) (stays s (refusal sock h 6) k)
          | inl right ↦ elim (Bool-cases (u.client_id == h.client_id)) [
            | inr stranger ↦ rw (known, right, stranger, on_login) (stays s (refusal sock h 10) k)
            | inl itself ↦ elim (Option-cases (lookup h.client_id s.handler.client_to_sock_fd)) [
              | inl absent ↦
                  rw (known, right, itself, absent, on_login)
                    (start_session-Connects session_id sock h s fresh k)
              | inr (other_fd, present) ↦
                  rw (known, right, itself, present, on_login)
                    (duplicate_login-Connects other_fd sock h s k)
            ]
          ]
        ]
      ]
