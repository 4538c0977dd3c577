-- ===== src/Entry/Handler/Sockets/Sending.antt =====
-- The loop of `ClientHandler::write_msg` (order_entry/oe_client_handler.cpp).
use ndfex.Prelude.{
  ℕ, ◌+◌, ◌≤◌, ◌<◌, ◌≡◌, refl, inl, inr, Bool, true, false, List, [], ◌∷◌, some, arith, ltb,
  Bool-cases,
}
use ndfex.Prelude.Bytes
use ndfex.Entry.Handler.Sockets.{Sent, wrote, would_block, fails, send_all}

-- Each call of `send` takes a byte at least, or fails.
abbrev Moves : Sent → Type 0
Moves (wrote n) = 0 < n
Moves would_block = ⊥
Moves fails = Unit {0}

abbrev pub AllMove : List (Sent × ℕ) → Type 0
AllMove [] = Unit {0}
AllMove ((r, elapsed) ∷ rs) = Moves r × AllMove rs

finished :
    (length bytes_sent : ℕ) (rs : List (Sent × ℕ))
    → length ≤ bytes_sent
    → send_all length bytes_sent rs ≡ some true
unfolding send_all
finished length bytes_sent [] h = ground arith
finished length bytes_sent (r ∷ rs) h = ground arith

-- If each call of `send` takes a byte at least or fails, then the loop of `write_msg` ends within
-- as many calls as bytes are left.
pub send_all-ends :
    (length bytes_sent : ℕ) (rs : List (Sent × ℕ))
    → AllMove rs
    → length ≤ bytes_sent + Bytes.length rs
    → (done : Bool) × (send_all length bytes_sent rs ≡ some done)
unfolding send_all Bytes.length
send_all-ends length bytes_sent [] move enough =
    (true, finished length bytes_sent [] (omega (arith, enough)))
send_all-ends length bytes_sent ((wrote n, elapsed) ∷ rs) (moves, move) enough =
    elim (Bool-cases (ltb bytes_sent length)) [
      | inr complete ↦ (true, rw complete refl)
      | inl short ↦ elim (Bool-cases (ltb 10000000 elapsed)) [
        | inl late ↦ (false, rw (short, late) refl)
        | inr soon ↦
            let (done, rest) =
              send_all-ends length (bytes_sent + n) rs move (omega (arith, moves, enough)) in
            (done, rw (short, soon) rest)
      ]
    ]
send_all-ends length bytes_sent ((would_block, elapsed) ∷ rs) (moves, move) enough = absurd moves
send_all-ends length bytes_sent ((fails, elapsed) ∷ rs) (moves, move) enough =
    elim (Bool-cases (ltb bytes_sent length)) [
      | inr complete ↦ (true, rw complete refl)
      | inl short ↦ (false, rw short refl)
    ]
