-- ===== src/PromKey/RoundTrip.antt =====
-- pkg/slo/common/promkey/promkey.go: `Parse` reads what `Format` writes.
use my_operator.Base.{false, [], ◌∷◌, ◌≡◌, ◌≢◌, refl, Text, All, ok}
use my_operator.GoMap.{keys, SameMap}
use my_operator.Text.Sort.{sort_strings}
use my_operator.PromKey.{Labels, parse, write_labels, format}
use my_operator.PromKey.Loop.{IsLabelName, IsMetricName, stored, parse_labels-write_labels}
use my_operator.PromKey.Token.{parse-name, parse-braces}
use my_operator.Text.Sort.{All-sort_strings}
use my_operator.PromKey.Stored.{stored-SameMap}

-- What `Format` writes, `Parse` reads back as the same name and a map with the same entries,
-- whatever the label values hold: for a nonempty metric name with no space and no '{', and label
-- names with no space, '=' or ','.
pub parse-format :
    (name : Text) (labels : Labels)
    → IsMetricName name
    → name ≢ []
    → All IsLabelName (keys labels)
    → (read : Labels) × (parse (format name labels) ≡ ok (name, read)) × SameMap read labels
unfolding format
parse-format name [] h ne hs = ([], parse-name name h ne, λ k. refl)
parse-format name (l ∷ ls) h ne hs =
    let ks = sort_strings (keys (l ∷ ls)) in
    (
      stored (l ∷ ls) [] ks,
      rw (
        parse-braces name (write_labels (l ∷ ls) false ks) h,
        parse_labels-write_labels ks (l ∷ ls) (All-sort_strings IsLabelName (keys (l ∷ ls)) hs),
      ),
      stored-SameMap (l ∷ ls),
    )
