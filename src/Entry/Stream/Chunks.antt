-- ===== src/Entry/Stream/Chunks.antt =====
-- `StreamParser::parse` (order_entry/oe_stream_parser.H) and the chunks in which bytes come.
use ndfex.Prelude.{
  ℕ, zero, suc, ◌+◌, ◌*◌, ◌≤◌, ◌≡◌, refl, sym, ap, ◌∙◌, inl, inr, false, List, [], ◌∷◌, ◌++◌,
  Option, none, some, arith, ltb, Bool-cases, Option-cases,
}
use ndfex.Prelude.Bytes.{length, drop, read, decode, Layout, size, length-append}
use ndfex.Entry.Stream.{
  RequestHeader, request_layout, request_header_of, request_header, Call, body_of, call_of, Front,
  waits, refused, cut, takes, taken, parse_body, parse_whole, parse_front, Parsed, waiting, closed,
  cut_off, after_call, parse_loop,
}

read-append :
    (w : ℕ) (buf more : List ℕ)
    → w ≤ length buf
    → (read w (buf ++ more) ≡ ((read w buf).0, (read w buf).1 ++ more))
      × (length (read w buf).1 + w ≡ length buf)
unfolding read length
read-append zero buf more h = (refl, omega arith)
read-append (suc w) [] more h = absurd (omega arith)
read-append (suc w) (b ∷ buf) more h =
    let (e, l) = read-append w buf more (omega arith) in
    (ap (λ r. (b + 256 * r.0, r.1)) e, omega (arith, l))

decode-append :
    (ws : Layout) (buf more : List ℕ)
    → size ws ≤ length buf
    → (decode ws (buf ++ more) ≡ ((decode ws buf).0, (decode ws buf).1 ++ more))
      × (length (decode ws buf).1 + size ws ≡ length buf)
unfolding decode
decode-append [] buf more h = (refl, omega arith)
decode-append (w ∷ ws) buf more h =
    let (e, l) = read-append w buf more (omega (arith, h)) in
    let (e', l') = decode-append ws (read w buf).1 more (omega (arith, h, l)) in
    (
      ap (λ r. (r.0 ∷ (decode ws r.1).0, (decode ws r.1).1)) e
          ∙ ap (λ r. ((read w buf).0 ∷ r.0, r.1)) e',
      omega (arith, l, l'),
    )

drop-append_left :
    (n : ℕ) (buf more : List ℕ) → n ≤ length buf → drop n (buf ++ more) ≡ drop n buf ++ more
unfolding drop length
drop-append_left zero buf more h = refl
drop-append_left (suc n) [] more h = absurd (omega arith)
drop-append_left (suc n) (x ∷ buf) more h = drop-append_left n buf more (omega arith)

request_header-append :
    (buf more : List ℕ) → 20 ≤ length buf → request_header (buf ++ more) ≡ request_header buf
unfolding request_header
request_header-append buf more h =
    ap (λ r. request_header_of r.0) (decode-append request_layout buf more h).0

body-append :
    (ws : Layout) (buf more : List ℕ)
    → 20 + size ws ≤ length buf
    → (decode ws (decode request_layout (buf ++ more)).1).0
      ≡ (decode ws (decode request_layout buf).1).0
body-append ws buf more h =
    let (e, l) = decode-append request_layout buf more (omega (arith, h)) in
    ap (λ r. (decode ws r.1).0) e
    ∙ ap (λ r. r.0) (decode-append ws (decode request_layout buf).1 more (omega (arith, h, l))).0

taken-length : (n k : ℕ) (r : Option Call) (c : Call) → taken n r ≡ takes k c → k ≡ n
taken-length n k none c e = absurd cc
taken-length n k (some c') c e = cc

pub parse_body-append :
    (bytes bytes' n : ℕ) (h : RequestHeader) (c : Call) (buf more : List ℕ)
    → bytes ≡ length buf
    → bytes ≤ bytes'
    → parse_body bytes h buf ≡ takes n c
    → (parse_body bytes' h (buf ++ more) ≡ takes n c) × (n ≡ h.length)
unfolding parse_body
parse_body-append bytes bytes' n h c buf more e grows t = elim (Option-cases (body_of h.msg_type)) [
  | inl unknown ↦ absurd (ground (arith, unknown, t))
  | inr (ws, known) ↦ elim (Bool-cases (ltb bytes (20 + size ws))) [
    | inl short ↦ absurd (ground (arith, known, short, t))
    | inr enough ↦
        let here : taken h.length (call_of h (decode ws (decode request_layout buf).1).0)
            ≡ takes n c =
          ground (arith, known, enough, t) in
        let enough' : ltb bytes' (20 + size ws) ≡ false = ground (arith, enough, grows) in
        (
          rw (known, parse_body, enough', body-append ws buf more (ground (arith, enough, e))) here,
          taken-length h.length n _ c here,
        )
  ]
]

-- A request at the front stays there when more bytes come.
parse_whole-append :
    (bytes bytes' n : ℕ) (h : RequestHeader) (c : Call) (buf more : List ℕ)
    → bytes ≡ length buf
    → bytes ≤ bytes'
    → parse_whole bytes h buf ≡ takes n c
    → (parse_whole bytes' h (buf ++ more) ≡ takes n c) × (n ≤ bytes)
unfolding parse_whole
parse_whole-append bytes bytes' n h c buf more e grows t =
    ground (arith, e, grows, t, parse_body-append bytes bytes' n h c buf more e grows)

parse_front-append :
    (n : ℕ) (c : Call) (buf more : List ℕ)
    → parse_front buf ≡ takes n c
    → (parse_front (buf ++ more) ≡ takes n c) × (n ≤ length buf)
unfolding parse_front
parse_front-append n c buf more t = elim (Bool-cases (ltb (length buf) 20)) [
  | inl short ↦ absurd (ground (arith, short, t))
  | inr enough ↦
      let l = length-append buf more in
      let enough' : ltb (length (buf ++ more)) 20 ≡ false = ground (arith, enough, l) in
      let (t', inside) =
        parse_whole-append (length buf) (length (buf ++ more)) n (request_header buf) c buf more
          refl (omega (arith, l)) (ground (arith, enough, t)) in
      (rw (enough', request_header-append buf more (ground (arith, enough))) t', inside)
]

-- The loop after a turn.
abbrev pub go_on : ℕ → List ℕ → Front → Option Parsed
go_on fuel buf waits = some (waiting buf [])
go_on fuel buf (refused c) = some (closed buf (c ∷ []))
go_on fuel buf cut = some (cut_off [])
go_on fuel buf (takes n c) = after_call c (parse_loop fuel (drop n buf))

pub parse_loop-goes_on :
    (fuel : ℕ) (buf : List ℕ) → parse_loop (suc fuel) buf ≡ go_on fuel buf (parse_front buf)
unfolding parse_loop
parse_loop-goes_on fuel buf = go (parse_front buf)
  where
    go :
        (f : Front)
        → (elim f [
          | waits ↦ some (waiting buf [])
          | refused c ↦ some (closed buf (c ∷ []))
          | cut ↦ some (cut_off [])
          | takes n c ↦ after_call c (parse_loop fuel (drop n buf))
        ])
          ≡ go_on fuel buf f
    go waits = refl
    go (refused c) = refl
    go cut = refl
    go (takes n c) = refl

abbrev pub after_calls : List Call → Option Parsed → Option Parsed
after_calls [] r = r
after_calls (c ∷ cs) r = after_call c (after_calls cs r)

-- The loop over `buf` with more bytes behind it goes on from `rest`.
abbrev pub Resumes : ℕ → List ℕ → List ℕ → List ℕ → List Call → Type 0
Resumes fuel buf more rest cs =
    (used : ℕ) × (used ≤ fuel)
    × ((fuel' : ℕ)
        → parse_loop (used + fuel') (buf ++ more)
          ≡ after_calls cs (parse_loop fuel' (rest ++ more)))

after_call-waiting :
    (c : Call) (r : Option Parsed) (rest : List ℕ) (cs : List Call)
    → after_call c r ≡ some (waiting rest cs)
    → (cs' : List Call) × (cs ≡ c ∷ cs') × (r ≡ some (waiting rest cs'))
after_call-waiting c none rest cs e = absurd cc
after_call-waiting c (some (closed buf' cs')) rest cs e = absurd cc
after_call-waiting c (some (cut_off cs')) rest cs e = absurd cc
after_call-waiting c (some (waiting buf' cs')) rest cs e = (cs', cc, cc)

zero_add : (n : ℕ) → 0 + n ≡ n
zero_add n = omega arith

suc_add : (m n : ℕ) → suc m + n ≡ suc (m + n)
suc_add m n = omega arith

no_fuel : (buf rest : List ℕ) (cs : List Call) → parse_loop 0 buf ≡ some (waiting rest cs) → ⊥
unfolding parse_loop
no_fuel buf rest cs e = cc

Resumes-turn :
    (fuel : ℕ) (buf more rest : List ℕ) (cs : List Call) (f : Front)
    → parse_front buf ≡ f
    → go_on fuel buf f ≡ some (waiting rest cs)
    → ((buf' : List ℕ) (cs' : List Call)
        → parse_loop fuel buf' ≡ some (waiting rest cs')
        → Resumes fuel buf' more rest cs')
    → Resumes (suc fuel) buf more rest cs
Resumes-turn fuel buf more rest cs waits t e later =
    let same_bytes : buf ≡ rest = cc in
    let no_calls : [] ≡ cs = cc in
    (
      0,
      omega arith,
      λ fuel'.
          ap (λ b. parse_loop (0 + fuel') (b ++ more)) same_bytes
          ∙ ap (λ k. parse_loop k (rest ++ more)) (zero_add fuel')
          ∙ ap (λ k. after_calls k (parse_loop fuel' (rest ++ more))) no_calls,
    )
Resumes-turn fuel buf more rest cs (refused c) t e later = absurd cc
Resumes-turn fuel buf more rest cs cut t e later = absurd cc
Resumes-turn fuel buf more rest cs (takes n c) t e later =
    let (cs', is, runs) = after_call-waiting c (parse_loop fuel (drop n buf)) rest cs e in
    let (used, few, resumes) = later (drop n buf) cs' runs in
    let (t', inside) = parse_front-append n c buf more t in
    (
      suc used,
      omega (arith, few),
      λ fuel'.
          ap (λ k. parse_loop k (buf ++ more)) (suc_add used fuel')
          ∙ parse_loop-goes_on (used + fuel') (buf ++ more)
          ∙ ap (go_on (used + fuel') (buf ++ more)) t'
          ∙ ap (λ b. after_call c (parse_loop (used + fuel') b))
              (drop-append_left n buf more inside)
          ∙ ap (after_call c) (resumes fuel')
          ∙ ap (λ k. after_calls k (parse_loop fuel' (rest ++ more))) (sym is),
    )

-- If the loop of `parse` ends on some bytes and waits for more, then with more bytes behind them
-- it makes the same calls first, with no more turns, and then does what it does on the bytes that
-- were left with the further bytes behind them.
pub parse_loop-Resumes :
    (fuel : ℕ) (buf more rest : List ℕ) (cs : List Call)
    → parse_loop fuel buf ≡ some (waiting rest cs)
    → Resumes fuel buf more rest cs
parse_loop-Resumes zero buf more rest cs e = absurd (no_fuel buf rest cs e)
parse_loop-Resumes (suc fuel) buf more rest cs e =
    Resumes-turn fuel buf more rest cs (parse_front buf) refl
      (sym (parse_loop-goes_on fuel buf) ∙ e)
      (λ buf' cs' runs. parse_loop-Resumes fuel buf' more rest cs' runs)
