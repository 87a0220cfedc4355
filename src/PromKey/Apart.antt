-- ===== src/PromKey/Apart.antt =====
-- pkg/slo/common/promkey/promkey.go: which series `Format` gives one key.
use my_operator.Base.{[], ◌≡◌, ◌≢◌, sym, ap, ◌∙◌, Text, All, Result, ok}
use my_operator.GoMap.{lookup, keys, SameMap}
use my_operator.PromKey.{Labels, Error, parse, format}
use my_operator.PromKey.Loop.{IsLabelName, IsMetricName}
use my_operator.PromKey.RoundTrip.{parse-format}

-- What was read, if anything was.
abbrev read_or : Result Error (Text × Labels) → Text × Labels
read_or (ok x) = x
read_or _ = ([], [])

-- Two series to which `Format` gives one key have one name, and label maps with the same entries,
-- whatever the label values hold: for nonempty metric names with no space and no '{', and label
-- names with no space, '=' or ','. So no two series share a key.
pub format-apart :
    (name name' : Text) (labels labels' : Labels)
    → IsMetricName name
    → name ≢ []
    → All IsLabelName (keys labels)
    → IsMetricName name'
    → name' ≢ []
    → All IsLabelName (keys labels')
    → format name labels ≡ format name' labels'
    → (name ≡ name') × SameMap labels labels'
format-apart name name' labels labels' n ne ls n' ne' ls' e =
    let (read, p, s) = parse-format name labels n ne ls in
    let (read', p', s') = parse-format name' labels' n' ne' ls' in
    let q = ap read_or (sym p ∙ ap parse e ∙ p') in
    (ap (λ x. x.0) q, λ k. sym (s k) ∙ ap (λ x. lookup k x.1) q ∙ s' k)
