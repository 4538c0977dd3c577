-- ===== src/Entry/Stream/Tests.antt =====
-- Bytes of requests, for order_entry/oe_stream_parser.H.
use ndfex.Prelude.{ℕ, zero, suc, ◌≡◌, refl, List, [], ◌∷◌, ◌++◌, none, some, arith}
use ndfex.Prelude.Bytes.{length, drop, read, decode}
use ndfex.Entry.Stream.{
  request_header, Call, on_delete_order, body_of, call_of, parse_body, parse_whole, parse_front,
  Parsed, parse_loop,
}
use ndfex.Entry.Stream.Chunks.{Resumes, parse_loop-Resumes}
use ndfex.Entry.Stream.Loops.{Advances, parse_loop-stuck, parse_loop-ends}

-- A deletion of order 5, all of it but its last byte.
abbrev most : List ℕ
most =
    28 ∷ 0 ∷ 2 ∷ 1 ∷ 3 ∷ 0 ∷ 0 ∷ 0 ∷ 2 ∷ 0 ∷ 0 ∷ 0 ∷ 77 ∷ 0 ∷ 0 ∷ 0 ∷ 0 ∷ 0 ∷ 0 ∷ 0 ∷ 5 ∷ 0 ∷ 0 ∷ 0
    ∷ 0 ∷ 0 ∷ 0 ∷ []

abbrev deletion : Call
deletion =
    on_delete_order
      (record {
        length = 28;
        msg_type = 2;
        version = 1;
        seq_num = 3;
        client_id = 2;
        session_id = 77;
      })
      5

-- A whole deletion, most of a second one, and then its last byte.
parse_loop-Resumes_example : Resumes 2 (most ++ (0 ∷ most)) (0 ∷ []) most (deletion ∷ [])
unfolding parse_loop parse_front parse_whole parse_body request_header body_of call_of decode read
    drop length
parse_loop-Resumes_example =
    parse_loop-Resumes 2 (most ++ (0 ∷ most)) (0 ∷ []) most (deletion ∷ []) refl

-- The same deletion, with a length of 0.
abbrev endless : List ℕ
endless =
    0 ∷ 0 ∷ 2 ∷ 1 ∷ 3 ∷ 0 ∷ 0 ∷ 0 ∷ 2 ∷ 0 ∷ 0 ∷ 0 ∷ 77 ∷ 0 ∷ 0 ∷ 0 ∷ 0 ∷ 0 ∷ 0 ∷ 0 ∷ 5 ∷ 0 ∷ 0 ∷ 0
    ∷ 0 ∷ 0 ∷ 0 ∷ 0 ∷ []

parse_loop-stuck_example : parse_loop 1000 endless ≡ none
unfolding parse_front parse_whole parse_body request_header body_of call_of decode read length
parse_loop-stuck_example =
    parse_loop-stuck 1000 endless
      (on_delete_order
        (record {
          length = 0;
          msg_type = 2;
          version = 1;
          seq_num = 3;
          client_id = 2;
          session_id = 77;
        })
        5)
      refl

-- A header of a request that has not come whole.
abbrev short : List ℕ
short = 28 ∷ 0 ∷ 2 ∷ 1 ∷ 3 ∷ 0 ∷ 0 ∷ 0 ∷ 2 ∷ 0 ∷ 0 ∷ 0 ∷ 77 ∷ 0 ∷ 0 ∷ 0 ∷ 0 ∷ 0 ∷ 0 ∷ 0 ∷ []

short-Advances : Advances short
unfolding length request_header decode read drop
short-Advances zero room = omega arith
short-Advances (suc n) room = absurd (omega (arith, room))

parse_loop-ends_example : (e : Parsed) × (parse_loop 21 short ≡ some e)
unfolding length
parse_loop-ends_example = parse_loop-ends 21 short short-Advances (omega arith)
