-- ===== src/Bots/MdClient/Packets.antt =====
-- The loop of `MDClient::process_message` (bots/md_client.cpp): when it ends, and when it does not.
use ndfex.Prelude.{
  ℕ, zero, suc, ◌+◌, ◌≤◌, ◌<◌, ◌^◌, ◌≡◌, refl, ap, ◌∙◌, List, [], ◌∷◌, Option, none, some, arith,
  ltb, if◌then◌else◌,
}
use ndfex.Prelude.Bytes.{length, drop}
use ndfex.Feed.{magic_number, read_header}
use ndfex.Bots.MdClient.{
  MdClient, Summary, Ending, returned, overran, Round, ends, next, process_front, process_message,
  prepend,
}

-- The loop where it does not end at once.
abbrev pub go_on : ℕ → List ℕ → Round → Option Ending
go_on fuel buf (ends e) = some e
go_on fuel buf (next n c outs) =
    if ltb (length buf) n
    then some (overran c outs)
    else prepend outs (process_message fuel (drop n buf) c)

pub process_message-goes_on :
    (fuel : ℕ) (buf : List ℕ) (c : MdClient)
    → 0 < length buf
    → process_message (suc fuel) buf c ≡ go_on fuel buf (process_front buf c)
unfolding process_message length
process_message-goes_on fuel [] c h = absurd (omega arith)
process_message-goes_on fuel (x ∷ xs) c h = go (process_front (x ∷ xs) c)
  where
    go :
        (r : Round)
        → (elim r [
          | ends e ↦ some e
          | next n c' outs ↦
              if ltb (length (x ∷ xs)) n
              then some (overran c' outs)
              else prepend outs (process_message fuel (drop n (x ∷ xs)) c')
        ])
          ≡ go_on fuel (x ∷ xs) r
    go (ends e) = refl
    go (next n c' outs) = refl

pub go_on-next :
    (fuel n : ℕ) (buf : List ℕ) (c : MdClient) (outs : List Summary)
    → n ≤ length buf
    → go_on fuel buf (next n c outs) ≡ prepend outs (process_message fuel (drop n buf) c)
go_on-next fuel n buf c outs h = ground arith

process_front-seen :
    (buf : List ℕ) (c : MdClient)
    → 23 ≤ length buf
    → (read_header buf).magic ≡ magic_number
    → (read_header buf).seq_num ≤ c.last_md_seq_num
    → c.last_md_seq_num + 1 < 2 ^ 32
    → process_front buf c ≡ next (read_header buf).length c []
unfolding process_front
process_front-seen buf c long is_feed seen small = ground arith

drop-zero : (buf : List ℕ) → drop 0 buf ≡ buf
unfolding drop
drop-zero buf = refl

-- At a packet that begins with a whole header of the feed whose sequence number the client has
-- seen, below the largest, and whose length is 0, `process_message` does not end, however much
-- fuel there is.
pub process_message-stuck :
    (fuel : ℕ) (buf : List ℕ) (c : MdClient)
    → 23 ≤ length buf
    → (read_header buf).magic ≡ magic_number
    → (read_header buf).seq_num ≤ c.last_md_seq_num
    → c.last_md_seq_num + 1 < 2 ^ 32
    → (read_header buf).length ≡ 0
    → process_message fuel buf c ≡ none
unfolding process_message
process_message-stuck zero buf c long is_feed seen small empty = refl
process_message-stuck (suc fuel) buf c long is_feed seen small empty =
    process_message-goes_on fuel buf c (omega (arith, long))
    ∙ ap (go_on fuel buf)
        (process_front-seen buf c long is_feed seen small ∙ ap (λ n. next n c []) empty)
    ∙ go_on-next fuel 0 buf c [] (omega arith)
    ∙ ap (λ b. prepend [] (process_message fuel b c)) (drop-zero buf)
    ∙ ap (prepend []) (process_message-stuck fuel buf c long is_feed seen small empty)

-- No header in the packet has length 0, wherever it may start.
abbrev pub Advances : List ℕ → Type 0
Advances buf = (n : ℕ) → n + 23 ≤ length buf → 0 < (read_header (drop n buf)).length

pub empty_packet :
    (fuel : ℕ) (c : MdClient) → process_message (suc fuel) [] c ≡ some (returned c [])
unfolding process_message
empty_packet fuel c = refl

pub some_bytes : (x : ℕ) (xs : List ℕ) → 0 < length (x ∷ xs)
unfolding length
some_bytes x xs = omega arith
