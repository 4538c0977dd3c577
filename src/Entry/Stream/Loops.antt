-- ===== src/Entry/Stream/Loops.antt =====
-- The loop of `StreamParser::parse` (order_entry/oe_stream_parser.H): when it ends, and when it does not.
use mathlib.Core.Path.{subst}
use ndfex.Prelude.{
  ℕ, zero, suc, ◌+◌, ◌≤◌, ◌<◌, ◌≡◌, refl, sym, ap, ◌∙◌, inl, inr, List, [], ◌∷◌, Option, none, some,
  arith, ltb, Bool-cases,
}
use ndfex.Prelude.Bytes.{length, drop, drop-drop, length-drop-le}
use ndfex.Entry.Stream.{
  RequestHeader, request_header, Call, Front, waits, refused, cut, takes, parse_whole, parse_front,
  Parsed, waiting, closed, cut_off, after_call, parse_loop,
}
use ndfex.Entry.Stream.Chunks.{parse_body-append, go_on, parse_loop-goes_on}

parse_whole-length :
    (bytes n : ℕ) (h : RequestHeader) (c : Call) (buf : List ℕ)
    → bytes ≡ length buf
    → parse_whole bytes h buf ≡ takes n c
    → (n ≡ h.length) × (n ≤ bytes)
unfolding parse_whole
parse_whole-length bytes n h c buf e t =
    ground (arith, t, parse_body-append bytes bytes n h c buf [] e (omega arith))

parse_front-length :
    (n : ℕ) (c : Call) (buf : List ℕ)
    → parse_front buf ≡ takes n c
    → ((n ≡ (request_header buf).length) × (n ≤ length buf)) × (20 ≤ length buf)
unfolding parse_front
parse_front-length n c buf t = elim (Bool-cases (ltb (length buf) 20)) [
  | inl short ↦ absurd (ground (arith, short, t))
  | inr enough ↦ (
    parse_whole-length (length buf) n (request_header buf) c buf refl (ground (arith, enough, t)),
    ground (arith, enough),
  )
]

drop-zero : (buf : List ℕ) → drop 0 buf ≡ buf
unfolding drop
drop-zero buf = refl

-- If a request that is handed on has length 0, then the loop of `parse` does not end, however
-- much fuel there is.
pub parse_loop-stuck :
    (fuel : ℕ) (buf : List ℕ) (c : Call) → parse_front buf ≡ takes 0 c → parse_loop fuel buf ≡ none
unfolding parse_loop
parse_loop-stuck zero buf c t = refl
parse_loop-stuck (suc fuel) buf c t =
    parse_loop-goes_on fuel buf
    ∙ ap (go_on fuel buf) t
    ∙ ap (λ b. after_call c (parse_loop fuel b)) (drop-zero buf)
    ∙ ap (after_call c) (parse_loop-stuck fuel buf c t)

-- No header has length 0, wherever in the bytes it may start.
abbrev pub Advances : List ℕ → Type 0
Advances buf = (n : ℕ) → n + 20 ≤ length buf → 0 < (request_header (drop n buf)).length

drop-Advances : (n : ℕ) (buf : List ℕ) → n ≤ length buf → Advances buf → Advances (drop n buf)
drop-Advances n buf inside positive k room =
    subst (λ b. 0 < (request_header b).length) (sym (drop-drop k n buf))
      (positive (n + k) (omega (arith, room, length-drop-le n buf inside)))

head-length : (buf : List ℕ) → Advances buf → 20 ≤ length buf → 0 < (request_header buf).length
unfolding drop
head-length buf positive long = positive 0 (omega (arith, long))

after_call-some :
    (c : Call) (r : Option Parsed) (e : Parsed)
    → r ≡ some e
    → (e' : Parsed) × (after_call c r ≡ some e')
after_call-some c r (waiting buf cs) h = (_, ap (after_call c) h)
after_call-some c r (closed buf cs) h = (_, ap (after_call c) h)
after_call-some c r (cut_off cs) h = (_, ap (after_call c) h)

go_on-ends :
    (fuel : ℕ) (buf : List ℕ) (f : Front)
    → parse_front buf ≡ f
    → Advances buf
    → length buf < suc fuel
    → ((buf' : List ℕ)
        → Advances buf'
        → length buf' < fuel
        → (e : Parsed) × (parse_loop fuel buf' ≡ some e))
    → (e : Parsed) × (go_on fuel buf f ≡ some e)
go_on-ends fuel buf waits t positive enough later = (waiting buf [], refl)
go_on-ends fuel buf (refused c) t positive enough later = (closed buf (c ∷ []), refl)
go_on-ends fuel buf cut t positive enough later = (cut_off [], refl)
go_on-ends fuel buf (takes n c) t positive enough later =
    let ((n_is, inside), long) = parse_front-length n c buf t in
    let some_bytes = head-length buf positive long in
    let (e, runs) =
      later (drop n buf) (drop-Advances n buf inside positive)
        (omega (arith, length-drop-le n buf inside, n_is, some_bytes, enough)) in
    after_call-some c (parse_loop fuel (drop n buf)) e runs

-- If no header that the bytes of a socket may hold, wherever it starts, has length 0, then the
-- loop of `parse` ends with more fuel than there are bytes.
pub parse_loop-ends :
    (fuel : ℕ) (buf : List ℕ)
    → Advances buf
    → length buf < fuel
    → (e : Parsed) × (parse_loop fuel buf ≡ some e)
parse_loop-ends zero buf positive enough = absurd (omega (arith, enough))
parse_loop-ends (suc fuel) buf positive enough =
    let (e, runs) =
      go_on-ends fuel buf (parse_front buf) refl positive enough
        (λ buf' positive' enough'. parse_loop-ends fuel buf' positive' enough') in
    (e, parse_loop-goes_on fuel buf ∙ runs)
