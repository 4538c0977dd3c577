-- ===== src/Prelude/Steps.antt =====
-- Code that changes a state, emits outputs in order, and may throw: `none` stands for the exception, after
-- which the program ends.
use ndfex.Prelude.{◌≡◌, ap, ◌∙◌, List, [], ◌++◌, Option, none, some}

abbrev pub Step : Type 0 → Type 0 → Type 0
Step S O = S → Option (S × List O)

-- A result behind earlier outputs, and a step behind an earlier result.
abbrev pub emit : {S O : Type 0} → List O → Option (S × List O) → Option (S × List O)
emit outs none = none
emit outs (some (s, outs')) = some (s, outs ++ outs')

abbrev pub follow : {S O : Type 0} → Option (S × List O) → Step S O → Option (S × List O)
follow none k = none
follow (some (s, outs)) k = emit outs (k s)

infixl 5 ◌then◌
abbrev pub ◌then◌ : {S O : Type 0} → Step S O → Step S O → Step S O
◌then◌ m k s = follow (m s) k

abbrev pub skip : {S O : Type 0} → Step S O
skip s = some (s, [])

pub then_runs :
    {S O : Type 0} (m k : Step S O) (s s' s'' : S) (outs outs' : List O)
    → m s ≡ some (s', outs)
    → k s' ≡ some (s'', outs')
    → (m then k) s ≡ some (s'', outs ++ outs')
then_runs m k s s' s'' outs outs' first second = ap (λ r. follow r k) first ∙ ap (emit outs) second
